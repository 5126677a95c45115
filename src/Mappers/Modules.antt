-- ===== src/Mappers/Modules.antt =====
-- The tables of entry points of mappers/pwent_mapper.c and mappers/mail_mapper.c, which their init
-- functions give to the manager. What `cert_info` gives for a certificate is a parameter.
use pam_pkcs.Base.{ℕ, Bool, true, false, List, Option, none, some, Bytes}
use pam_pkcs.Base.Cstr.{codes}
use pam_pkcs.MapperMgr.{MapperModule, InitResult, inited}
use pam_pkcs.Mappers.Mapfile.{MapEnv}
use pam_pkcs.Mappers.Names.{Block, get_debug, level_of}
use pam_pkcs.Mappers.Pwent.{PwEnv, pwent_mapper_find_user, pwent_mapper_match_user}
use pam_pkcs.Mappers.Mail.{
  MailSettings, mail_defaults, mail_settings, mail_mapper_find_user, mail_mapper_match_user,
}

-- `ignorecase` is 0 until a block is read.
unfoldable pub pwent_ignorecase : Option Block → Bool
pwent_ignorecase none = false
pwent_ignorecase (some blk) = blk.get_bool (codes "ignorecase") false

module _ {X509 : Type 0} (cert_info : X509 → Option (List Bytes)) where
  pwent_mapper : PwEnv → Bool → MapperModule X509
  pwent_mapper env ignorecase = record {
    dbg_level = 0;
    entries = some cert_info;
    finder = some (λ x509. pwent_mapper_find_user env (cert_info x509) ignorecase);
    matcher = some (λ x509 login. pwent_mapper_match_user env (cert_info x509) login ignorecase);
    deinit = true;
  }

  unfoldable pub pwent_mapper_module_init : PwEnv → Option Block → Bytes → ℕ → InitResult X509
  unfolding pwent_mapper
  pwent_mapper_module_init env blk mapper_name level =
      inited (pwent_mapper env (pwent_ignorecase blk)) (level_of (get_debug blk false))

  mail_mapper : MapEnv → MailSettings → MapperModule X509
  mail_mapper env s = record {
    dbg_level = 0;
    entries = some cert_info;
    finder = some (λ x509. mail_mapper_find_user env s (cert_info x509));
    matcher = some (λ x509 login. mail_mapper_match_user env s (cert_info x509) login);
    deinit = true;
  }

  -- The name of the host is a parameter.
  unfoldable pub mail_mapper_module_init :
      MapEnv → Bytes → Option Block → Bytes → ℕ → InitResult X509
  unfolding mail_mapper
  mail_mapper_module_init env name blk mapper_name level =
      inited (mail_mapper env (mail_settings blk name mail_defaults))
        (level_of (get_debug blk false))

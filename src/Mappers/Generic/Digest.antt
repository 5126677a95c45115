-- ===== src/Mappers/Generic/Digest.antt =====
-- The settings of mappers/digest_mapper.c, with common/algorithm.c in the build with OpenSSL.
-- `get_digestbyname` is whether EVP_get_digestbyname knows a name.
use pam_pkcs.Base.{Bool, false, Option, none, some, Bytes, if◌then◌else◌}
use pam_pkcs.Base.Cstr.{codes}
use pam_pkcs.Mappers.Names.{Block, get_debug}

pub record DigestSettings : Type 0 where
  pub algorithm : Option Bytes
  pub debug : Bool
  pub mapfile : Bytes

abbrev pub digest_defaults : DigestSettings
digest_defaults = record { algorithm = some (codes "sha1"); debug = false; mapfile = codes "none" }

-- An algorithm is the pointer to its name; ALGORITHM_NULL is the null pointer.
alg_get_alg_from_string : (Option Bytes → Bool) → Option Bytes → Option Bytes
alg_get_alg_from_string get_digestbyname hash_string =
    if get_digestbyname hash_string then hash_string else none

or_sha1 : Option Bytes → Option Bytes
or_sha1 none = some (codes "sha1")
or_sha1 (some algorithm) = some algorithm

hash_alg_string : Option Block → Option Bytes
hash_alg_string none = none
hash_alg_string (some blk) = some (blk.get_str (codes "algorithm") (codes "sha1"))

mapfile_of : Option Block → Bytes → Bytes
mapfile_of none mapfile = mapfile
mapfile_of (some blk) mapfile = blk.get_str (codes "mapfile") mapfile

-- `mapper_module_init`, up to the table of the entry points.
unfoldable pub digest_settings :
    (Option Bytes → Bool) → Option Block → DigestSettings → DigestSettings
unfolding alg_get_alg_from_string or_sha1 hash_alg_string mapfile_of get_debug
digest_settings get_digestbyname blk s = record {
  algorithm = or_sha1 (alg_get_alg_from_string get_digestbyname (hash_alg_string blk));
  debug = get_debug blk s.debug;
  mapfile = mapfile_of blk s.mapfile;
}

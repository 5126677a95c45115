-- ===== src/Tests/Token.antt =====
-- Runs of the functions on slots, tokens and base64 on small inputs, with a card that answers.
use pam_pkcs.Base.{
  ℕ, ◌≡◌, ◌≢◌, ◌⊎◌, ◌≤◌, ◌/◌, ◌%◌, refl, arith, true, false, List, [], ◌∷◌, none, some, Bytes,
  if◌then◌else◌, ◌==◌, ltb, leb, length, is_some,
}
use pam_pkcs.Base.Int.{negsuc}
use pam_pkcs.Base.Cstr.{codes}
use pam_pkcs.Pkcs11.Slots.{Slot}
use pam_pkcs.Pkcs11.Cryptoki.{
  Call, certificates, find_objects, find_objects_init, find_objects_final, get_id, get_value,
  get_slot_list, sign_init, sign, rsa_pkcs, Reply, live, CertObject, Handle, Cryptoki,
}
use pam_pkcs.Pkcs11.Module.{ModuleStat, Linker, new_handle, load_pkcs11_module, refresh_slots}
use pam_pkcs.Pkcs11.Module.Refresh.{IsHonest, IsDone, refresh_slots-IsDone, refresh_slots-unplugged}
use pam_pkcs.Pkcs11.Module.Present.{load_pkcs11_module_sound}
use pam_pkcs.Pkcs11.Objects.{
  get_certificate_list, get_private_key, sign_value, text_of, buffer_too_small,
}
use pam_pkcs.Pkcs11.Objects.Searches.{
  IsBalanced, IsKept, get_certificate_list_sound, get_private_key_sound,
}
use pam_pkcs.Pkcs11.Objects.Signing.{SignsData, sign_value_sound}
use pam_pkcs.Pkcs11.Objects.Ends.{searched, get_certificate_list_total, sign_value_total}
use pam_pkcs.Base64.{code_of, base64_encode, base64_decode}
use pam_pkcs.Base64.Roundtrip.{base64_decode-base64_encode}
use pam_pkcs.Base64.Ends.{base64_decode_total}

abbrev answer : Reply
answer = record {
  rv = 0;
  count = 1;
  ids = 7 ∷ [];
  text = codes "card";
  token_present = true;
  login_required = 1;
  protected_path = 0;
  session = 5;
  object = none;
  value = 9 ∷ [];
  key_type = 0;
}

-- A card with one certificate, whose signatures have 100 bytes or less.
card_reply : List (Call × ℕ) → Call → Reply
card_reply cs find_objects = record answer { object = if searched cs == 0 then some 3 else none }
card_reply cs (sign text size) =
    if ltb size 100
    then record answer { rv = buffer_too_small; count = 100 }
    else record answer { value = 1 ∷ 2 ∷ [] }
card_reply cs (get_slot_list (some n)) = record answer { count = if leb 1 n then 1 else 0 }
card_reply cs c = answer

abbrev card : Cryptoki ℕ
card = record { reply = card_reply; d2i_x509 = λ v. some (length v); sha256 = λ v. length v ∷ [] }

-- A card whose reader is taken out, and put in again after two questions.
abbrev moved : Cryptoki ℕ
moved = record card { reply = λ cs c. record answer { count = if leb 2 (length cs) then 1 else 0 } }

abbrev handle : Handle ℕ
handle = new_handle

abbrev slot : Slot
slot = record {
  id = 7;
  token_present = true;
  label = codes "card";
  slot_description = codes "card";
}

abbrev filled_handle : Handle ℕ
filled_handle = record handle { slots = live (slot ∷ []); slot_count = 1 }

abbrev cert : CertObject ℕ
cert = record { id = 9 ∷ []; x509 = 1; private_key = none; key_type = 0 }

abbrev key_cert : CertObject ℕ
key_cert = record cert { private_key = some 4 }

abbrev linker : Linker
linker = record {
  stat = λ path. some (record { st_uid = 0; st_mode = 493 });
  dlopen = λ path. true;
  dlsym = λ path. true;
  get_function_list = λ path. 0;
}

card-IsHonest : IsHonest card
unfolding card_reply
card-IsHonest = record { few = λ cs e. omega arith; fits = λ cs n e. ground arith }

refresh_slots-IsDone_example : IsDone (refresh_slots card filled_handle)
refresh_slots-IsDone_example = refresh_slots-IsDone card card-IsHonest filled_handle (omega arith)

refresh_slots-unplugged_example :
    (h' : Handle ℕ) × (refresh_slots moved filled_handle ≡ some (negsuc 0, h'))
    × (refresh_slots moved h' ≡ none)
refresh_slots-unplugged_example =
    refresh_slots-unplugged moved filled_handle (slot ∷ []) 1 refl (λ e. absurd (omega (arith, e)))
      (refl, refl) (refl, refl) (λ e. absurd (omega (arith, e))) (refl, refl)

load_pkcs11_module_sound_example :
    (st : ModuleStat) × (linker.stat (codes "/lib/p11.so") ≡ some st)
    × (st.st_uid ≡ 0)
    × (st.st_mode / 16 % 2 ≡ 0)
    × (st.st_mode / 2 % 2 ≡ 0)
    × (linker.dlopen (codes "/lib/p11.so") ≡ true)
    × (linker.dlsym (codes "/lib/p11.so") ≡ true)
    × (linker.get_function_list (codes "/lib/p11.so") ≡ 0)
unfolding load_pkcs11_module
load_pkcs11_module_sound_example = load_pkcs11_module_sound linker (codes "/lib/p11.so") handle refl

abbrev empty : Cryptoki ℕ
empty = record card { reply = λ cs c. record answer { token_present = false } }

abbrev refreshed : Handle ℕ
refreshed = record filled_handle {
  calls = (Call.get_slot_info 7, 0) ∷ (get_slot_list none, 0) ∷ [];
}

abbrev listed : Handle ℕ
listed = record handle {
  certs = some (cert ∷ []);
  calls =
      (find_objects_final, 0)
      ∷ (find_objects, 0)
      ∷ (get_value 3, 0)
      ∷ (get_value 3, 0)
      ∷ (get_id 3, 0)
      ∷ (get_id 3, 0)
      ∷ (find_objects, 0)
      ∷ (find_objects_init certificates, 0)
      ∷ [];
}

get_certificate_list_sound_example :
    IsBalanced handle listed × IsKept card (some (cert ∷ [])) listed
unfolding get_certificate_list card_reply
get_certificate_list_sound_example =
    get_certificate_list_sound card 2 handle (some (cert ∷ [])) listed refl

get_private_key_sound_example :
    IsBalanced handle (get_private_key card cert handle).2
    × (((get_private_key card cert handle).0 ≡ negsuc 0)
        ⊎ ((get_private_key card cert handle).1.private_key ≢ none))
    × ((get_private_key card cert handle).1.id ≡ cert.id)
get_private_key_sound_example = get_private_key_sound card cert handle

abbrev signed : Handle ℕ
signed =
    let text = text_of rsa_pkcs (1 ∷ []) in
    record handle {
      calls = (sign text 100, 0) ∷ (sign text 64, 336) ∷ (sign_init rsa_pkcs 4, 0) ∷ [];
    }

sign_value_sound_example : SignsData card key_cert (8 ∷ []) (1 ∷ 2 ∷ []) signed
unfolding sign_value card_reply
sign_value_sound_example =
    sign_value_sound card 2 key_cert key_cert (8 ∷ []) (1 ∷ 2 ∷ []) handle signed refl

get_certificate_list_total_example : is_some (get_certificate_list card 2 handle) ≡ true
unfolding card_reply
get_certificate_list_total_example =
    get_certificate_list_total card 1 2 handle (λ cs l. ground (arith, l)) (omega arith)

sign_value_total_example : is_some (sign_value card 2 key_cert (8 ∷ []) handle) ≡ true
unfolding card_reply
sign_value_total_example =
    sign_value_total card 100 0 key_cert (8 ∷ []) handle (λ cs text size e. ground (arith, e))

base64_decode-base64_encode_example :
    base64_decode (codes "AAH/") 8 ≡ some (some (0 ∷ 1 ∷ 255 ∷ []))
unfolding base64_encode code_of
base64_decode-base64_encode_example =
    base64_decode-base64_encode (0 ∷ 1 ∷ 255 ∷ []) 8 8 (codes "AAH/")
      (omega arith, (omega arith, (omega arith, tt))) refl (omega arith)

abbrev two_bytes : Bytes
two_bytes = 0 ∷ 1 ∷ []

base64_decode_total_example :
    (base64_decode (codes "QUI=") 1 ≡ some none)
    ⊎ ((bytes : Bytes) × (base64_decode (codes "QUI=") 1 ≡ some (some bytes)) × (length bytes ≤ 1))
base64_decode_total_example = base64_decode_total (codes "QUI=") 1

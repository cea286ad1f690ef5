-- ===== src/Connectors/Secrets.antt =====
-- apps/api/src/lib/connector-secrets.ts: the configuration of a connector, sealed in an envelope. The
-- cipher and the JSON text are the platform's.
use vowgrid_api.Common.{
  ℕ, String, ◌≡◌, refl, Bool, true, false, ◌&&◌, ◌||◌, Option, none, some, ◌==◌, str_eq,
  if◌then◌else◌, arith,
}
use vowgrid_api.Env.{Env, Settled, resolved, threw}
use vowgrid_api.Json.{Json, Fields, bool, number, text, object, end, field, get_field}

abbrev is_true : Option Json → Bool
is_true (some (bool b)) = b
is_true _ = false

abbrev is_number : ℕ → Option Json → Bool
is_number n (some (number m)) = m == n
is_number n _ = false

abbrev is_text_of : String → Option Json → Bool
is_text_of t (some (text s)) = str_eq s t
is_text_of t _ = false

abbrev pub is_text : Option Json → Bool
is_text (some (text _)) = true
is_text _ = false

-- The text of a member that is known to be one.
abbrev text_of : Option Json → String
text_of (some (text s)) = s
text_of _ = ""

abbrev marker : String
marker = "__vowgridEncrypted"

abbrev algorithm : String
algorithm = "aes-256-gcm"

unfoldable pub is_encrypted_connector_config : Env → Json → Bool
unfolding get_field
is_encrypted_connector_config env (object fs) =
    is_true (get_field marker fs)
    && is_number env.numbers.one_number (get_field "version" fs)
    && is_text_of algorithm (get_field "algorithm" fs)
    && is_text (get_field "iv" fs)
    && is_text (get_field "tag" fs)
    && is_text (get_field "ciphertext" fs)
is_encrypted_connector_config env _ = false

abbrev has_members : Json → Bool
has_members (object end) = false
has_members (object _) = true
has_members _ = false

unfoldable pub has_connector_config : Env → Json → Bool
unfolding is_encrypted_connector_config
has_connector_config env v = is_encrypted_connector_config env v || has_members v

-- The envelope around a text that was sealed under an initialisation vector.
unfoldable pub envelope : Env → String → String × String → Json
envelope env iv (tag, ciphertext) = object (
    field marker (bool true) (
      field "version" (number env.numbers.one_number) (
        field "algorithm" (text algorithm) (
          field "iv" (text iv)
            (field "tag" (text tag) (field "ciphertext" (text ciphertext) end))))))

unfoldable pub encrypt_connector_config : Env → String → Option Fields → Option Json
unfolding envelope
encrypt_connector_config env iv none = none
encrypt_connector_config env iv (some end) = none
encrypt_connector_config env iv (some (field k v fs)) =
    some (envelope env iv (env.seal iv (env.stringify (object (field k v fs)))))

abbrev record_only : Json → Settled Json
record_only (object fs) = resolved (object fs)
record_only _ = threw "Connector config decrypted into an invalid payload."

abbrev parsed : Env → Settled String → Settled Json
parsed env (threw e) = threw e
parsed env (resolved s) = elim (env.parse_json s) [ threw e ↦ threw e | resolved v ↦ record_only v ]

-- What is not an object is as good as nothing.
unfoldable pub decrypt_connector_config : Env → Option Json → Settled Json
unfolding is_encrypted_connector_config
decrypt_connector_config env (some (object fs)) =
    if is_encrypted_connector_config env (object fs)
    then parsed env (
        env.unseal (text_of (get_field "iv" fs)) (text_of (get_field "tag" fs))
          (text_of (get_field "ciphertext" fs)))
    else resolved (object fs)
decrypt_connector_config env _ = resolved (object end)

unfoldable pub redact_connector_config : Env → Json → Option Json
unfolding has_connector_config is_encrypted_connector_config
redact_connector_config env v =
    if has_connector_config env v
    then some (
        object (
          field "redacted" (bool true)
            (field "encryptedAtRest" (bool (is_encrypted_connector_config env v)) end)))
    else none

-- `unseal` takes back what `seal` made.
abbrev pub IsCipher : Env → Type 0
IsCipher env = (iv s : String) → env.unseal iv (env.seal iv s).0 (env.seal iv s).1 ≡ resolved s

opened :
    (env : Env) (fs : Fields) (s : Settled String)
    → env.parse_json (env.stringify (object fs)) ≡ resolved (object fs)
    → s ≡ resolved (env.stringify (object fs))
    → parsed env s ≡ resolved (object fs)
opened env fs s p e = ground arith

envelope-is_encrypted :
    (env : Env) (iv tag ciphertext : String)
    → is_encrypted_connector_config env (envelope env iv (tag, ciphertext)) ≡ true
unfolding is_encrypted_connector_config envelope
envelope-is_encrypted env iv tag ciphertext = ground arith

-- What was encrypted decrypts to the same configuration, under any initialisation vector, where the
-- cipher undoes itself and the configuration comes back from its JSON text. An empty configuration is
-- stored as nothing and comes back as the empty one.
pub decrypt_connector_config-encrypt :
    (env : Env) (iv : String) (fs : Fields)
    → IsCipher env
    → env.parse_json (env.stringify (object fs)) ≡ resolved (object fs)
    → decrypt_connector_config env (encrypt_connector_config env iv (some fs))
      ≡ resolved (object fs)
unfolding decrypt_connector_config encrypt_connector_config
decrypt_connector_config-encrypt env iv end c p = refl
decrypt_connector_config-encrypt env iv (field k v fs) c p =
    let made = env.seal iv (env.stringify (object (field k v fs))) in
    rw (envelope-is_encrypted env iv made.0 made.1)
      (opened env (field k v fs) _ p (c iv (env.stringify (object (field k v fs)))))

-- ===== src/Security/Keys.antt =====
-- src/security/auth.ts and api-key.ts: a caller is known by a key of which only the hash is kept. The
-- hash and `trim` are parameters.
pub mod Granted
use jobflow_project.Common.{
  Bool, List, Option, Result, Text, [], drop, err, false, find, if◌then◌else◌, keys, none, not, ok,
  some, starts_with, take, text, text_eq, ◌&&◌, ◌++◌, ◌∷◌,
}
use jobflow_project.Domain.{JobflowError, coded_error}

pub record ApiKeyRecord : Type 0 where
  pub id : Text
  pub tenant_id : Text
  pub prefix : Text
  pub hash : Text
  pub scopes : List Text
  pub created_at : Text
  pub revoked_at : Option Text

-- A date that is empty counts as none.
abbrev pub is_revoked : ApiKeyRecord → Bool
is_revoked k = set k.revoked_at
  where
    set : Option Text → Bool
    set none = false
    set (some at) = not (text_eq at [])

unfoldable pub insert_key : ApiKeyRecord → List ApiKeyRecord → List ApiKeyRecord
insert_key k keys = keys ++ k ∷ []

unfoldable pub find_by_prefix : Text → List ApiKeyRecord → Option ApiKeyRecord
find_by_prefix prefix keys = find (λ k. text_eq k.prefix prefix && not (is_revoked k)) keys

module _ (hash_key trim : Text → Text) where
  -- The record that was found, against the hash of the key that was sent.
  unfoldable pub admit : Text → Option ApiKeyRecord → Result JobflowError (Text × List Text)
  admit raw none = err (coded_error (text "UNAUTHORIZED") (text "invalid api key"))
  admit raw (some k) =
      if text_eq k.hash (hash_key raw)
      then ok (k.tenant_id, k.scopes)
      else err (coded_error (text "UNAUTHORIZED") (text "invalid api key"))

  unfoldable pub authenticate :
      Option Text → List ApiKeyRecord → Result JobflowError (Text × List Text)
  unfolding admit find_by_prefix starts_with
  authenticate none keys = err (coded_error (text "UNAUTHORIZED") (text "missing bearer token"))
  authenticate (some header) keys =
      let raw = trim (drop 7 header) in
      if starts_with (text "Bearer ") header
      then admit raw (find_by_prefix (take 8 raw) keys)
      else err (coded_error (text "UNAUTHORIZED") (text "missing bearer token"))

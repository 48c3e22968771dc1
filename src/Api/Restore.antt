-- ===== src/Api/Restore.antt =====
-- internal/api/auth.go: what the setup screen is told of backups, and its call to restore one.
use feedla.Prelude.{
  ltb, String, string_discrete, Bool, true, false, not, ◌&&◌, Option, none, some, List, [], ◌∷◌,
  if◌then◌else◌, length,
}
use feedla.Store.Table.{Result, ok, fail}
use feedla.Store.Accounts.{same_text}
use feedla.Store.Accounts.Users.{is_setup_pending}
use feedla.Api.{
  Server, Response, restarting, RestoreHint, write_json, write_error, write_store_error,
}
use Prim.Native.String.{compare, len, slice}
use package.text.Mathlib.Text.{is_lt}
use Prim.Native.Nat.{◌-◌}

-- What the server has for backups: the directory, the names of its snapshots in descending order
-- (none for an error), the keys in the bucket (none without a bucket, some none for an error), and
-- whether a restore is wired in, with its outcome.
pub record Backups : Type 0 where
  pub backup_dir : String
  pub local_files : Option (List String)
  pub remote_keys : Option (Option (List String))
  pub setup_restore : Option Bool

-- `strings.HasSuffix(name, ".db")`
abbrev pub is_db : String → Bool
is_db name = not (ltb (len name) 3) && same_text (slice name (len name - 3) (len name)) ".db"

abbrev pub first_db : List String → String
first_db [] = ""
first_db (f ∷ files) = let rest = first_db files in if is_db f then f else rest

abbrev pub greater : String → String → Bool
greater a b = is_lt (compare b a)

abbrev pub is_some {ℓ} : {A : Type ℓ} → Option A → Bool
is_some none = false
is_some (some a) = true

abbrev pub local_part : Backups → List String
local_part b =
    if same_text b.backup_dir "" then [] else elim b.local_files [ none ↦ [] | some files ↦ files ]

abbrev pub remote_part : Backups → List String
remote_part b = elim b.remote_keys [ none ↦ [] | some r ↦ elim r [ none ↦ [] | some keys ↦ keys ] ]

abbrev pub remote_failed : Option (Option (List String)) → Bool
remote_failed none = false
remote_failed (some none) = true
remote_failed (some (some keys)) = false

abbrev pub latest : String → String → String × String
latest remote local =
    if greater remote local
    then (remote, "remote")
    else (if not (same_text local "") then (local, "local") else ("", ""))

-- `path.Base`
module _ (base : String → String) where
  abbrev pub latest_db : String → List String → String
  latest_db best [] = best
  latest_db best (key ∷ keys) =
      latest_db (if is_db (base key) && greater (base key) best then base key else best) keys

  unfoldable pub restore_hint_for_setup : Backups → RestoreHint
  unfolding string_discrete
  restore_hint_for_setup b =
      let newest = latest (latest_db "" (remote_part b)) (first_db (local_part b)) in
      record {
        local_configured = not (same_text b.backup_dir "");
        local_has_snapshot = ltb 0 (length (local_part b));
        remote_configured = is_some b.remote_keys;
        remote_has_snapshot = ltb 0 (length (remote_part b));
        remote_error = remote_failed b.remote_keys;
        restore_supported = is_some b.setup_restore;
        latest_snapshot = newest.0;
        latest_snapshot_source = newest.1;
      }

abbrev pub restored : Option Bool → Response
restored none = write_error 501 "restore is not supported by this server"
restored (some false) = write_error 500 "restore failed; check server logs"
restored (some true) = write_json 202 restarting

abbrev pub restore_when : Backups → Result Bool → Response
restore_when b (fail e) = write_store_error e
restore_when b (ok false) = write_error 409 "setup already completed"
restore_when b (ok true) = restored b.setup_restore

unfoldable pub handle_auth_restore : Backups → Server → Server × Response
unfolding is_setup_pending
handle_auth_restore b s = (s, restore_when b (is_setup_pending 1 s.accounts))

-- ===== src/Gateway/Outputs.antt =====
-- The artifacts that a finished attempt hands over (the validation and the publication of outputs
-- in `finish_attempt` of src/vgen/gateway/repository.py). A metadata object is a list of its
-- fields; a reported one is the value of `project_reported_artifact_media_metadata` on it.
use Prim.Native.String.{◌++◌ as append_text}
use text.Mathlib.Text.{◌==◌ as str_eq, starts_with}
use vgen.Base.{
  ℕ, String, Bool, true, false, ◌&&◌, ◌||◌, not, Option, none, some, List, [], ◌∷◌, ◌==◌,
  if◌then◌else◌,
}
use vgen.Table.{update_where}
use vgen.Gateway.Db.{Db, Artifact, ArtifactState, Direction}
use vgen.Gateway.Tx.{
  Result, ok, ◌>>=◌, ◌>>◌, require, found, output_artifact_invalid, artifact_not_found,
}

-- A reported output; a field that is absent, or of another type for `artifact_id`, is `none`.
pub record Output : Type 0 where
  pub artifact_id : Option ℕ
  pub kind : Option String
  pub store_type : Option String
  pub object_ref : Option String
  pub encrypted_size : Option ℕ
  pub content_digest : Option String
  pub media_metadata : List (String × String)

abbrev text_matches : Option String → String → Bool
text_matches none stored = true
text_matches (some reported) stored = str_eq reported stored

abbrev kind_matches : Option String → String → Bool
kind_matches none stored = false
kind_matches (some reported) stored = str_eq reported stored

abbrev same_size : ℕ → Option ℕ → Bool
same_size reported none = false
same_size reported (some stored) = reported == stored

abbrev size_matches : Option ℕ → Option ℕ → Bool
size_matches none stored = true
size_matches (some reported) stored = same_size reported stored

abbrev same_digest : String → Option String → Bool
same_digest reported none = false
same_digest reported (some stored) = str_eq reported stored

abbrev prefixed : String → String
prefixed digest = if starts_with digest "sha256:" then digest else append_text "sha256:" digest

abbrev digest_matches : Option String → Option String → Bool
digest_matches none stored = true
digest_matches (some reported) stored = same_digest (prefixed reported) stored

abbrev is_output : Direction → Bool
is_output Direction.output = true
is_output Direction.input = false

abbrev is_uploaded : ArtifactState → Bool
is_uploaded ArtifactState.uploaded = true
is_uploaded _ = false

abbrev same_attempt : Option ℕ → ℕ → Bool
same_attempt none k = false
same_attempt (some j) k = j == k

-- The uploaded output of this attempt.
abbrev pub is_reserved_output : ℕ → ℕ → Artifact → Bool
is_reserved_output task_id attempt_id r =
    r.task_id == task_id
    && same_attempt r.attempt_id attempt_id
    && is_output r.direction
    && is_uploaded r.state

abbrev matches_object : Output → Artifact → Bool
matches_object o r =
    text_matches o.store_type r.store_type
    && text_matches o.object_ref r.object_ref
    && size_matches o.encrypted_size r.encrypted_size
    && digest_matches o.content_digest r.content_digest

abbrev contains : ℕ → List ℕ → Bool
contains k [] = false
contains k (j ∷ rest) = j == k || contains k rest

-- `{**stored, **reported}`
abbrev put_field : String → String → List (String × String) → List (String × String)
put_field key v [] = (key, v) ∷ []
put_field key v ((j, w) ∷ rest) =
    if str_eq j key then (j, v) ∷ rest else (j, w) ∷ put_field key v rest

abbrev merge : List (String × String) → List (String × String) → List (String × String)
merge stored [] = stored
merge stored ((key, v) ∷ rest) = merge (put_field key v stored) rest

abbrev pub Published : Type 0
Published = List (ℕ × List (String × String))

check_output : ℕ → ℕ → Db → List ℕ → Output → Result (ℕ × List (String × String))
check_output task_id attempt_id db seen o = do
  artifact_id ← found o.artifact_id output_artifact_invalid
  require (not (contains artifact_id seen)) output_artifact_invalid
  r ← found (db.artifacts.row artifact_id) output_artifact_invalid
  require (is_reserved_output task_id attempt_id r) output_artifact_invalid
  require (kind_matches o.kind r.kind) output_artifact_invalid
  require (matches_object o r) output_artifact_invalid
  ok (artifact_id, merge r.media_metadata o.media_metadata)

validate_from : ℕ → ℕ → Db → List ℕ → List Output → Result Published
unfolding check_output
validate_from task_id attempt_id db seen [] = ok []
validate_from task_id attempt_id db seen (o ∷ rest) = do
  (artifact_id, metadata) ← check_output task_id attempt_id db seen o
  tail ← validate_from task_id attempt_id db (artifact_id ∷ seen) rest
  ok ((artifact_id, metadata) ∷ tail)

unfoldable pub validate_outputs : ℕ → ℕ → Db → List Output → Result Published
unfolding validate_from
validate_outputs task_id attempt_id db outputs = validate_from task_id attempt_id db [] outputs

unfoldable pub publish_artifact : ℕ → ℕ → ℕ → ℕ → List (String × String) → Db → Db
publish_artifact task_id attempt_id stamp artifact_id metadata db = record db {
  artifacts =
      update_where (λ k r. k == artifact_id && is_reserved_output task_id attempt_id r)
        (λ r. record r {
          state = ArtifactState.available;
          media_metadata = metadata;
          updated_at = stamp;
        })
        db.artifacts;
}

-- The updates must each match one row.
unfoldable pub publish_outputs : ℕ → ℕ → ℕ → Published → Db → Result Db
unfolding publish_artifact
publish_outputs task_id attempt_id stamp [] db = ok db
publish_outputs task_id attempt_id stamp ((artifact_id, metadata) ∷ rest) db = do
  r ← found (db.artifacts.row artifact_id) artifact_not_found
  require (is_reserved_output task_id attempt_id r) artifact_not_found
  publish_outputs task_id attempt_id stamp rest
      (publish_artifact task_id attempt_id stamp artifact_id metadata db)

-- ===== src/Creation/Uploads.antt =====
-- `create_upload` of backend/src/rendercart/jobs/router.py, and that `create_job` takes what it
-- grants. The name of the file, the key of its object and the signed address are left out.
use text.Mathlib.Text.{◌==◌ as str_eq}
use text.Mathlib.TextPositions.{eq_refl}
use render_cart.Prelude.{
  ap, ℕ, ◌+◌, ◌*◌, ◌<◌, ◌≡◌, refl, inl, inr, subst, String, true, false, not, Option, none, some,
  [], ◌∷◌, ◌++◌, if◌then◌else◌, ltb, leb, arith, any_of, Bool-cases, sym,
}
use render_cart.Prelude.Int.{pos, ltb_ℤ}
use render_cart.Access.{Level}
use render_cart.Quota.{Redis, increment_window}
use render_cart.Registry.{Limit, ToolManifest, FileInput, tool_access}
use render_cart.Creation.{or_default, tool_limit, max_for, Upload, Rows, Caller, Creation, Refusal}
use render_cart.Creation.Guards.{limit_field, megabytes, owns_upload, unusable}

pub record UploadRequest : Type 0 where
  pub tool_slug : String
  pub content_type : String
  pub size_bytes : ℕ
  pub upload_id : ℕ
  pub window_key : String

pub data Presigned : Type 0 where
  presigned : Upload → Presigned
  rejected : Refusal → Presigned

abbrev pub new_upload : Creation → Caller → UploadRequest → Upload
new_upload c who q = record {
  id = q.upload_id;
  user_id = who.user;
  guest_id = who.guest_id;
  content_type = q.content_type;
  size_bytes = q.size_bytes;
  expires_at = c.now + 86400;
}

-- `configured_limit.max_total_mb if configured_limit else None`
abbrev pub configured : Option Limit → Option ℕ
configured none = none
configured (some l) = l.max_total_mb

-- `max_mb`, as this handler computes it.
abbrev pub upload_megabytes : Creation → ToolManifest → FileInput → Level → ℕ
upload_megabytes c tool inputs level =
    or_default (max_for inputs.max_total_mb level 10) (configured (tool_limit c tool level))

abbrev pub presign_for :
    Creation → Caller → UploadRequest → ToolManifest → Option FileInput → Presigned
presign_for c who q tool none = rejected (400, "Tool does not accept uploaded files")
presign_for c who q tool (some inputs) =
    if not (any_of (str_eq q.content_type) inputs.accept)
    then rejected (415, "File type is not supported")
    else if ltb (upload_megabytes c tool inputs who.level * 1024 * 1024) q.size_bytes
    then rejected (413, "File exceeds your plan's size limit")
    else presigned (new_upload c who q)

abbrev pub presign_tool : Creation → Caller → UploadRequest → Option ToolManifest → Presigned
presign_tool c who q none = rejected (404, "Tool not found")
presign_tool c who q (some tool) = presign_for c who q tool tool.inputs

module _ (redis : Redis) where
  abbrev pub store_upload : Presigned → Rows redis → Presigned × Rows redis
  store_upload (presigned u) r = (presigned u, record r { uploads = r.uploads ++ u ∷ [] })
  store_upload (rejected e) r = (rejected e, r)

  -- `create_upload`
  unfoldable pub create_upload :
      Creation → Caller → UploadRequest → Rows redis → Presigned × Rows redis
  create_upload c who q r =
      let (count, store) = increment_window redis q.window_key 3600 r.store in
      let r' : Rows redis = record r { store = store } in
      let tool = tool_access c.registry c.overrides q.tool_slug who.level in
      if ltb_ℤ (pos 30) count
      then (rejected (429, "Too many upload requests. Try again later."), r')
      else store_upload (presign_tool c who q tool) r'

owns_own :
    (user : Option ℕ) (guest : Option String) (level : Level) (u : Upload)
    → owns_upload
        (record { user = user; guest_id = guest; level = level })
        (record u { user_id = user; guest_id = guest })
      ≡ true
owns_own (some i) guest level u = ground arith
owns_own none none level u = refl
owns_own none (some g) level u = eq_refl g

new_upload-owned :
    (c : Creation) (who : Caller) (q : UploadRequest) → owns_upload who (new_upload c who q) ≡ true
new_upload-owned c who q = owns_own who.user who.guest_id who.level (new_upload c who q)

-- What `create_job` asks of an upload for the same tool, by the same caller.
pub record Usable (c : Creation) (who : Caller) (tool : ToolManifest) (inputs : FileInput)
    (u : Upload) : Type 0 where
  pub lasts :
      (now : ℕ) → now < u.expires_at → unusable (record c { now = now }) who inputs u ≡ false
  pub fits : ltb (megabytes c tool inputs who.level * 1024 * 1024) u.size_bytes ≡ false

configured-limit_field : (o : Option Limit) → configured o ≡ limit_field (λ l. l.max_total_mb) o
configured-limit_field none = refl
configured-limit_field (some l) = refl

-- Both handlers find the same limit.
upload_megabytes-eq-megabytes :
    (c : Creation) (tool : ToolManifest) (inputs : FileInput) (level : Level)
    → upload_megabytes c tool inputs level ≡ megabytes c tool inputs level
upload_megabytes-eq-megabytes c tool inputs level =
    ap (or_default (max_for inputs.max_total_mb level 10))
      (configured-limit_field (tool_limit c tool level))

granted-Usable :
    (c : Creation) (who : Caller) (q : UploadRequest) (tool : ToolManifest) (inputs : FileInput)
    → any_of (str_eq q.content_type) inputs.accept ≡ true
    → ltb (upload_megabytes c tool inputs who.level * 1024 * 1024) q.size_bytes ≡ false
    → Usable c who tool inputs (new_upload c who q)
granted-Usable c who q tool inputs accepted fits = record {
  lasts = λ now soon.
      let fresh : leb (c.now + 86400) now ≡ false = ground arith in
      rw (new_upload-owned c who q, fresh, accepted) refl;
  fits = rw (sym (upload_megabytes-eq-megabytes c tool inputs who.level)) fits;
}

presign_for-Usable :
    (c : Creation) (who : Caller) (q : UploadRequest) (tool : ToolManifest) (inputs : FileInput)
    (u : Upload)
    → presign_for c who q tool (some inputs) ≡ presigned u
    → Usable c who tool inputs u
presign_for-Usable c who q tool inputs u e =
    elim (Bool-cases (any_of (str_eq q.content_type) inputs.accept)) [
      | inr unsupported ↦ absurd (ground arith)
      | inl accepted ↦
          elim (Bool-cases
            (ltb (upload_megabytes c tool inputs who.level * 1024 * 1024) q.size_bytes)) [
              | inl large ↦ absurd (ground arith)
              | inr fits ↦
                  let same : new_upload c who q ≡ u = ground arith in
                  subst (Usable c who tool inputs) same
                    (granted-Usable c who q tool inputs accepted fits)
            ]
    ]

-- What a granted upload was granted for.
pub record Grantable (c : Creation) (who : Caller) (slug : String) (u : Upload) : Type 0 where
  pub tool : ToolManifest
  pub inputs : FileInput
  pub found : tool_access c.registry c.overrides slug who.level ≡ some tool
  pub takes_files : tool.inputs ≡ some inputs
  pub usable : Usable c who tool inputs u

tool_inputs-Grantable :
    (c : Creation) (who : Caller) (q : UploadRequest) (tool : ToolManifest) (o : Option FileInput)
    (u : Upload)
    → tool_access c.registry c.overrides q.tool_slug who.level ≡ some tool
    → tool.inputs ≡ o
    → presign_for c who q tool o ≡ presigned u
    → Grantable c who q.tool_slug u
tool_inputs-Grantable c who q tool none u found given e = absurd (ground arith)
tool_inputs-Grantable c who q tool (some inputs) u found given e = record {
  tool = tool;
  inputs = inputs;
  found = found;
  takes_files = given;
  usable = presign_for-Usable c who q tool inputs u e;
}

presign_tool-Grantable :
    (c : Creation) (who : Caller) (q : UploadRequest) (o : Option ToolManifest) (u : Upload)
    → tool_access c.registry c.overrides q.tool_slug who.level ≡ o
    → presign_tool c who q o ≡ presigned u
    → Grantable c who q.tool_slug u
presign_tool-Grantable c who q none u found e = absurd (ground arith)
presign_tool-Grantable c who q (some tool) u found e =
    tool_inputs-Grantable c who q tool tool.inputs u found refl e

presigned-inj : (u v : Upload) → presigned u ≡ presigned v → u ≡ v
presigned-inj u v e = ground arith

store_upload-presigned :
    (redis : Redis) (p : Presigned) (r : Rows redis) (u : Upload)
    → (store_upload redis p r).0 ≡ presigned u
    → (p ≡ presigned u) × ((store_upload redis p r).1.uploads ≡ r.uploads ++ u ∷ [])
store_upload-presigned redis (rejected e) r u h = absurd (ground arith)
store_upload-presigned redis (presigned v) r u h =
    (h, subst (λ x. r.uploads ++ v ∷ [] ≡ r.uploads ++ x ∷ []) (presigned-inj v u h) refl)

-- An upload that is granted is stored last, and `create_job` can use it: for the tool that it was
-- granted for, which the caller's level may use, no test of a single upload (its owner, its time,
-- its type, and its size against the level's limit) refuses it to the same caller while it lasts.
pub create_upload-Grantable :
    (redis : Redis) (c : Creation) (who : Caller) (q : UploadRequest) (r : Rows redis) (u : Upload)
    → (create_upload redis c who q r).0 ≡ presigned u
    → ((create_upload redis c who q r).1.uploads ≡ r.uploads ++ u ∷ [])
      × Grantable c who q.tool_slug u
unfolding create_upload
create_upload-Grantable redis c who q r u e =
    let (count, store) = increment_window redis q.window_key 3600 r.store in
    let r' : Rows redis = record r { store = store } in
    let tool = tool_access c.registry c.overrides q.tool_slug who.level in
    elim (Bool-cases (ltb_ℤ (pos 30) count)) [
      | inl many ↦ absurd (ground arith)
      | inr few ↦
          let granted : (store_upload redis (presign_tool c who q tool) r').0 ≡ presigned u =
            rw few at e in
          let (given, stored) =
            store_upload-presigned redis (presign_tool c who q tool) r' u granted in
          rw few (stored, presign_tool-Grantable c who q tool u refl given)
    ]

-- ===== src/Jobs/Uploads/Listing.antt =====
-- jobs/uploads.py: `list`, and what its pages are.
use yandex_workspace_mcp.Prelude.{
  ℕ, zero, suc, ◌+◌, ◌≡◌, refl, sym, ap, subst, ◌∙◌, inl, inr, Bool, true, Text, List, [], ◌∷◌,
  ◌++◌, Option, none, some, arith, ltb, if◌then◌else◌, length, length-take, length-drop, take, drop,
  filter_by, text_eq, Bool-cases,
}
use yandex_workspace_mcp.Errors.{Result, ok, err, value_error, ◌>>=◌, >>=-ok, ok-injective}
use yandex_workspace_mcp.Jobs.Models.{UploadJobStatus, status_eq, UploadJob}
use yandex_workspace_mcp.Jobs.Uploads.{UploadJobStore, prune}

-- The methods of CursorCodec that `list` calls. A cursor is bound to its principal and status.
pub record JobCursors : Type 0 where
  pub encode_upload_jobs :
      (principal : Text) (status : Option UploadJobStatus) (offset : ℕ) → Result Text
  pub decode_upload_jobs : (token principal : Text) (status : Option UploadJobStatus) → Result ℕ

-- `principal or self.owner`
abbrev pub selected_principal : Option Text → Text → Text
selected_principal none owner = owner
selected_principal (some principal) owner = if text_eq principal [] then owner else principal

-- `status is None or job.status == status`
abbrev pub has_status : Option UploadJobStatus → UploadJob → Bool
has_status none job = true
has_status (some status) job = status_eq job.status status

module _ (codec : JobCursors) where
  abbrev pub start_of : Option Text → Text → Option UploadJobStatus → Result ℕ
  start_of none principal status = ok 0
  start_of (some token) principal status = codec.decode_upload_jobs token principal status

  -- The cursor of the next page. An UploadJobCursorV1 takes no offset above 10000.
  abbrev pub cursor_at : Text → Option UploadJobStatus → ℕ → Result (Option Text)
  cursor_at principal status offset =
      if ltb 10000 offset
      then err value_error
      else codec.encode_upload_jobs principal status offset >>= λ token. ok (some token)

  unfoldable pub page_at :
      ℕ → Text → Option UploadJobStatus → List UploadJob → ℕ → Result (List UploadJob × Option Text)
  page_at limit principal status jobs offset =
      let page = take limit (drop offset jobs) in
      let next_offset = offset + length page in
      (if ltb next_offset (length jobs) then cursor_at principal status next_offset else ok none)
      >>= λ next_cursor. ok (page, next_cursor)

  unfoldable pub list :
      ℕ
      → ℕ
      → Option Text
      → Option UploadJobStatus
      → Option Text
      → UploadJobStore
      → Result (List UploadJob × Option Text) × UploadJobStore
  list now limit cursor status principal s =
      let kept = prune now s.jobs in
      let selected = selected_principal principal s.owner in
      (
        start_of cursor selected status >>= λ offset.
            page_at limit selected status (filter_by (has_status status) kept) offset,
        record s { jobs = kept },
      )

  -- A token that was encoded is decoded to its offset.
  pub record Bound : Type 0 where
    pub reads :
        (principal : Text) (status : Option UploadJobStatus) (offset : ℕ) (token : Text)
        → codec.encode_upload_jobs principal status offset ≡ ok token
        → codec.decode_upload_jobs token principal status ≡ ok offset

some-injective : {a b : Text} → some a ≡ some b → a ≡ b
some-injective h = cc

take_none : (n : ℕ) → take {A = UploadJob} n [] ≡ []
take_none zero = refl
take_none (suc n) = refl

drop_none : (n : ℕ) → drop {A = UploadJob} n [] ≡ []
drop_none zero = refl
drop_none (suc n) = refl

take_add : (a b : ℕ) (l : List UploadJob) → take a l ++ take b (drop a l) ≡ take (a + b) l
take_add zero b l = let e : 0 + b ≡ b = omega arith in rw e refl
take_add (suc a) b [] = rw (take_none b, take_none (suc a + b)) refl
take_add (suc a) b (x ∷ l) =
    let e : suc a + b ≡ suc (a + b) = omega arith in rw e (ap (λ t. x ∷ t) (take_add a b l))

drop_add : (a b : ℕ) (l : List UploadJob) → drop b (drop a l) ≡ drop (a + b) l
drop_add zero b l = let e : 0 + b ≡ b = omega arith in rw e refl
drop_add (suc a) b [] = rw (drop_none b, drop_none (suc a + b)) refl
drop_add (suc a) b (x ∷ l) = let e : suc a + b ≡ suc (a + b) = omega arith in rw e (drop_add a b l)

module _ (codec : JobCursors) where
  -- The pages of one list of jobs: what a page holds, and where the next one starts.
  page_at-ok :
      (limit : ℕ) (principal : Text) (status : Option UploadJobStatus) (jobs : List UploadJob)
      (offset : ℕ) {page : List UploadJob} {next : Option Text}
      → page_at codec limit principal status jobs offset ≡ ok (page, next)
      → (page ≡ take limit (drop offset jobs))
        × ((if ltb (offset + length (take limit (drop offset jobs))) (length jobs)
              then cursor_at codec principal status
                  (offset + length (take limit (drop offset jobs)))
              else ok none)
            ≡ ok next)
  unfolding page_at
  page_at-ok limit principal status jobs offset h =
      let (cursor, made, h1) = >>=-ok _ _ h in
      let same = ok-injective h1 in (sym (ap (λ r. r.0) same), made ∙ ap (λ r. ok r.1) same)

  cursor_at-ok :
      (principal : Text) (status : Option UploadJobStatus) (offset : ℕ) {token : Text}
      → cursor_at codec principal status offset ≡ ok (some token)
      → codec.encode_upload_jobs principal status offset ≡ ok token
  cursor_at-ok principal status offset h = elim (Bool-cases (ltb 10000 offset)) [
    | inl far ↦ absurd (ground (arith, far, h))
    | inr near ↦
        let (token', made, e) =
          >>=-ok (codec.encode_upload_jobs principal status offset) _ (rw near at h) in
        made ∙ ap ok (some-injective (ok-injective e))
  ]

  -- A page with a cursor is full, and its cursor is that of the page that starts after it.
  page_at-some :
      (limit : ℕ) (principal : Text) (status : Option UploadJobStatus) (jobs : List UploadJob)
      (offset : ℕ) {page : List UploadJob} {token : Text}
      → page_at codec limit principal status jobs offset ≡ ok (page, some token)
      → codec.encode_upload_jobs principal status (offset + limit) ≡ ok token
  page_at-some limit principal status jobs offset {token = token} h =
      let (same, next) = page_at-ok limit principal status jobs offset h in
      let count = length (take limit (drop offset jobs)) in
      elim (Bool-cases (ltb (offset + count) (length jobs))) [
        | inr last ↦ absurd (ground (arith, rw last at next))
        | inl more ↦
            let full : count ≡ limit =
              ground (arith, more, length-take limit (drop offset jobs), length-drop offset jobs) in
            subst (λ n. codec.encode_upload_jobs principal status (offset + n) ≡ ok token) full
              (cursor_at-ok principal status (offset + count) (rw more at next))
      ]

  -- Two pages in a row, the second one by the cursor of the first, from a store that has not changed
  -- and with a codec that reads what it wrote, are the jobs of two page lengths from where the first
  -- one starts: none is missed and none comes twice.
  pub list-join :
      (now limit : ℕ) (cursor : Option Text) (status : Option UploadJobStatus)
      (principal : Option Text) (s : UploadJobStore) {page page' : List UploadJob} {token : Text}
      {next : Option Text}
      → Bound codec
      → (list codec now limit cursor status principal s).0 ≡ ok (page, some token)
      → (list codec now limit (some token) status principal s).0 ≡ ok (page', next)
      → (offset : ℕ) × (start_of codec cursor (selected_principal principal s.owner) status
          ≡ ok offset)
        × (page ++ page'
            ≡ take (limit + limit) (drop offset (filter_by (has_status status) (prune now s.jobs))))
  unfolding list
  list-join now limit cursor status principal s {page} {page'} {token} bound h h' =
      let selected = selected_principal principal s.owner in
      let jobs = filter_by (has_status status) (prune now s.jobs) in
      let (offset, started, h1) = >>=-ok (start_of codec cursor selected status) _ h in
      let (same, next) = page_at-ok limit selected status jobs offset h1 in
      let (offset', decoded, h2) = >>=-ok (codec.decode_upload_jobs token selected status) _ h' in
      let (same', next') = page_at-ok limit selected status jobs offset' h2 in
      let follows : offset' ≡ offset + limit = ok-injective (
        sym decoded
        ∙ bound.reads selected status (offset + limit) token
            (page_at-some limit selected status jobs offset h1)) in
      (
        offset,
        started,
        rw (same, same', follows, ← drop_add offset limit jobs)
            (take_add limit limit (drop offset jobs)),
      )

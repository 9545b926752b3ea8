-- ===== src/Examples/Finished.antt =====
-- A job on the in-memory backend from its upload to its result.
use image_forge.Prelude.{
  ℕ, ◌≡◌, refl, sym, ap, ◌∙◌, subst, inl, inr, Bool, true, false, Option, none, some, [], ◌∷◌, ◌++◌,
  arith, Text, codes, text_eq, lookup-insert_ne, lookup, insert, ◌==◌, if◌then◌else◌, Bool-cases,
  Option-cases,
}
use image_forge.Errors.{Error, new, join_all, Result, ok, err}
use image_forge.Domain.Job.{JobStatus, status_text, valid_status, Job}
use image_forge.Domain.Spec.{
  format_text, valid_format, TransformationSpec, dimension_errors, format_errors, quality_errors,
  validate,
}
use image_forge.Ports.{Bytes, ImageProcessor, ProcessorLeaves}
use image_forge.Imageproc.Pipeline.{Backend, stage, encode, mark, clean, process}
use image_forge.Usecase.Keys.{original_key, result_key, original_key-ne-result_key}
use image_forge.Usecase.CreateJob.{new_job}
use image_forge.Usecase.CreateJob
use image_forge.Usecase.ProcessJob.Completes.{Answers}
use image_forge.Memrepo
use image_forge.Memrepo.Laws.{update_status_lem}
use image_forge.Local.{Host, repository}
use image_forge.Local.Contract.{stored, laws}
use image_forge.Httpapi.Answers.{spec_from_domain, new_job_response}
use image_forge.Httpapi.Upload.{replied, handle_upload}
use image_forge.Httpapi.Upload.Fulfilled.{Fulfilled, handle_upload-Fulfilled}
use image_forge.Examples.Jobs.{fetched, memory_storage, memory_storage-StorageLeaves}
use image_forge.Examples.Service.{site, jobs_queue, icon_spec, after_upload, icon_response}

-- A decoder that takes what begins with a byte 1, and no other content.
starts : Bytes → Bool
starts [] = false
starts (c ∷ cs) = c == 1

decode_image : Bytes → Host → Host × Result Bytes
unfolding starts
decode_image content h =
    if starts content then (h, ok content) else (h, err (new (codes "image: unknown format")))

abbrev decoding_backend : Backend Host Bytes
decoding_backend = record {
  ctx_err = λ h. h.ctx_err;
  open_image = decode_image;
  strip = λ img h. (h, ok img);
  resize = λ width height keep img h. (h, ok img);
  draw_watermark = λ text img h. (h, ok (img ++ text));
  convert = λ name quality img h. (h, ok (name ++ img));
}

-- `Process` over that decoder.
abbrev decoding : ImageProcessor Host
decoding = record { process = λ src spec h. process decoding_backend [] (some src) spec h }

abbrev Readable : Bytes → Type 0
Readable src = starts src ≡ true

encoded-same :
    (spec : TransformationSpec) (img : Bytes) (h : Host)
    → (encode decoding_backend spec img h).0 ≡ h
encoded-same spec img h = elim (Option-cases h.ctx_err) [
  | inl c ↦ simp c refl
  | inr (e, c) ↦ simp c refl
]

marked-same :
    (spec : TransformationSpec) (img : Bytes) (h : Host)
    → (mark decoding_backend [] spec img h).0 ≡ h
marked-same spec img h = elim (Bool-cases spec.watermark) [
  | inl b ↦ simp b (encoded-same spec (img ++ []) h)
  | inr b ↦ simp b (encoded-same spec img h)
]

cleaned-same :
    (spec : TransformationSpec) (img : Bytes) (h : Host)
    → (clean decoding_backend [] spec img h).0 ≡ h
cleaned-same spec img h = elim (Bool-cases spec.strip_metadata) [
  | inl b ↦ simp b (marked-same spec img h)
  | inr b ↦ simp b (marked-same spec img h)
]

opened-same :
    (src : Bytes) (spec : TransformationSpec) (h : Host)
    → (stage (codes "open source") (decode_image src h) (clean decoding_backend [] spec)).0 ≡ h
unfolding decode_image
opened-same src spec h = elim (Bool-cases (starts src)) [
  | inl b ↦ simp b (cleaned-same spec src h)
  | inr b ↦ simp b refl
]

decoding-same :
    (src : Bytes) (spec : TransformationSpec) (h : Host) → (decoding.process src spec h).0 ≡ h
unfolding process
decoding-same src spec h = elim (Option-cases (validate spec)) [
  | inr (e, v) ↦ simp (v, process) refl
  | inl v ↦ elim (Option-cases h.ctx_err) [
    | inr (e, c) ↦ simp (v, c, process) refl
    | inl c ↦ simp (v, c, process) (opened-same src spec h)
  ]
]

decoding-answers :
    (src : Bytes) (h : Host)
    → h.ctx_err ≡ none
    → Readable src
    → (out : Bytes) × ((decoding.process src icon_spec h).1 ≡ ok out)
unfolding process validate decode_image join_all dimension_errors format_errors quality_errors
    valid_format
decoding-answers src h c e = simp (c, e) (_, refl)

decoding-ProcessorLeaves : ProcessorLeaves stored decoding
decoding-ProcessorLeaves = record {
  process_keeps = λ src spec j h. ap (λ (x : Host). stored x j) (decoding-same src spec h);
}

-- The context has not ended, and the original is there and readable.
abbrev Live : Text → Host → Type 0
Live id h =
    (h.ctx_err ≡ none)
    × (src : Bytes) × (lookup (original_key id) h.objects ≡ some src)
    × Readable src

get_answers :
    (id : Text) (h : Host) (c : Job)
    → Live id h
    → stored h id ≡ some c
    → (repository.get id h).1 ≡ ok c
unfolding repository Memrepo.get
get_answers id h c l at = ground (arith, l.0, at)

update_answers :
    (id : Text) (s : JobStatus) (key : Text) (f : Option Error) (h : Host) (c : Job)
    → Live id h
    → stored h id ≡ some c
    → valid_status s ≡ true
    → (repository.update_status id s key f h).1 ≡ none
unfolding repository
update_answers id s key f h c l at known = elim (update_status_lem h.ctx_err id s key f h.repo) [
  | inl (job, (worked, _, _)) ↦ worked
  | inr (x, (_, _, why)) ↦ absurd (ground (arith, why, l.0, at, known))
]

update_live :
    (id : Text) (s : JobStatus) (key : Text) (f : Option Error) (h : Host)
    → Live id h
    → Live id (repository.update_status id s key f h).0
unfolding repository
update_live id s key f h l = l

fetched-answers :
    (id : Text) (h : Host) (o : Option Bytes) (src : Bytes)
    → Live id h
    → o ≡ some src
    → Readable src
    → ((out : Bytes) × ((fetched h o).1 ≡ ok out) × Readable out) × Live id (fetched h o).0
unfolding fetched
fetched-answers id h (some x) src l e good =
    let same : src ≡ x = ground arith in ((x, refl, subst Readable same good), l)
fetched-answers id h none src l e good = absurd (ground arith)

put_live :
    (id : Text) (out : Bytes) (h : Host)
    → Live id h
    → Live id (memory_storage.put (result_key id icon_spec) out h).0
unfolding memory_storage
put_live id out h (c, src, e, good) = (
  c,
  src,
  lookup-insert_ne (result_key id icon_spec) (original_key id) out h.objects
        (λ x. original_key-ne-result_key id id icon_spec (sym x))
      ∙ e,
  good,
)

answers :
    (id : Text) (at : ℕ)
    → Answers memory_storage repository decoding stored id
        (new_job id icon_spec at)
        (Live id)
        Readable
unfolding repository memory_storage
answers id at = record {
  get_answers = get_answers id;
  update_answers = update_answers id;
  fetch_answers = λ h l. (fetched-answers id h _ l.1 l l.2 l.3).0;
  process_answers = λ src h l good. decoding-answers src h l.0 good;
  put_answers = λ out h l. refl;
  get_live = λ h l. l;
  update_live = update_live id;
  fetch_live = λ h l. (fetched-answers id h _ l.1 l l.2 l.3).1;
  process_live = λ src h l. subst (Live id) (sym (decoding-same src icon_spec h)) l;
  put_live = put_live id;
}

abbrev cdn : Text
cdn = codes "https://cdn"

live_after : (id : Text) → codes "/jobs/b2" ≡ codes "/jobs/" ++ id → Live id after_upload
unfolding lookup text_eq original_key starts
live_after id e =
    let same : codes "b2" ≡ id = cc in
    subst (λ x. Live x after_upload) same (refl, 1 ∷ 2 ∷ [], refl, refl)

handle_upload-Fulfilled_example :
    Fulfilled memory_storage repository jobs_queue decoding
      (λ h. (h, codes "b2"))
      (λ h. (h, 7))
      laws
      (λ h. h.ctx_err)
      cdn
      memory_storage-StorageLeaves
      decoding-ProcessorLeaves
      (λ id j h. refl)
      (λ j h. refl)
      (λ j h. refl)
      icon_spec
      answers
      (codes "/jobs/b2")
      after_upload
unfolding handle_upload CreateJob.execute replied validate join_all dimension_errors format_errors
    quality_errors valid_format repository Memrepo.save text_eq insert status_text new_job_response
    spec_from_domain format_text original_key CreateJob.validated CreateJob.named CreateJob.uploaded
    CreateJob.stamped CreateJob.saved CreateJob.enqueued memory_storage
handle_upload-Fulfilled_example =
    handle_upload-Fulfilled memory_storage repository jobs_queue decoding (λ h. (h, codes "b2"))
      (λ h. (h, 7)) laws (λ h. h.ctx_err) cdn memory_storage-StorageLeaves decoding-ProcessorLeaves
      (λ id j h. refl) (λ j h. refl) (λ j h. refl) icon_spec answers (1 ∷ 2 ∷ []) site.world
      after_upload (codes "/jobs/b2") icon_response refl (λ x. cc) live_after

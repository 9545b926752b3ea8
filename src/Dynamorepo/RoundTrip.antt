-- ===== src/Dynamorepo/RoundTrip.antt =====
-- Jobs and their items determine one another.
use image_forge.Prelude.{◌≡◌, refl, true, arith, Text, codes, text_eq-eq, text_eq}
use image_forge.Domain.Job.{
  JobStatus, pending, processing, done, failed, other, job_status, status_text, valid_status, Job,
  status_text-job_status,
}
use image_forge.Domain.Spec.{
  Format, jpeg, png, webp, avif, unsupported, format, format_text, valid_format,
}
use image_forge.Dynamorepo.{Item, new_item, to_domain}

job_status-valid : (s : JobStatus) → valid_status s ≡ true → job_status (status_text s) ≡ s
unfolding job_status status_text valid_status text_eq
job_status-valid pending h = refl
job_status-valid processing h = refl
job_status-valid done h = refl
job_status-valid failed h = refl
job_status-valid (other s) h = cc

format-valid : (f : Format) → valid_format f ≡ true → format (format_text f) ≡ f
unfolding format format_text valid_format text_eq
format-valid jpeg h = refl
format-valid png h = refl
format-valid webp h = refl
format-valid avif h = refl
format-valid (unsupported s) h = cc

-- Reading back the item of a job with a known status and a supported format gives the job.
pub to_domain-new_item :
    (job : Job)
    → valid_status job.status ≡ true
    → valid_format job.transformation.output ≡ true
    → to_domain (new_item job) ≡ job
unfolding to_domain new_item
to_domain-new_item job h k =
    rw (job_status-valid job.status h, format-valid job.transformation.output k) refl

format_text-format : (s : Text) → format_text (format s) ≡ s
unfolding format_text format
format_text-format s = ground (
  arith,
  text_eq-eq s (codes "jpeg"),
  text_eq-eq s (codes "png"),
  text_eq-eq s (codes "webp"),
  text_eq-eq s (codes "avif"),
)

-- Every item, whatever strings stand in it, is what its job is stored as again.
new_item-to_domain : (i : Item) → new_item (to_domain i) ≡ i
unfolding to_domain new_item
new_item-to_domain i = rw (status_text-job_status i.status, format_text-format i.format) refl

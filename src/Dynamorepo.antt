-- ===== src/Dynamorepo.antt =====
-- internal/adapters/dynamorepo/dynamorepo.go: the item that stands for a job in the table. An
-- instant is its UnixNano, so both conversions of times are the identity here.
pub mod RoundTrip
pub mod Table
use image_forge.Prelude.{ℕ, Bool, Text, ℤ}
use image_forge.Domain.Job.{job_status, status_text, Job}
use image_forge.Domain.Spec.{format as format_spec, format_text}

pub record Item : Type 0 where
  pub id : Text
  pub original_key : Text
  pub result_key : Text
  pub status : Text
  pub width : ℤ
  pub height : ℤ
  pub format : Text
  pub quality : ℤ
  pub watermark : Bool
  pub strip_metadata : Bool
  pub created_at_unix : ℕ
  pub updated_at_unix : ℕ
  pub processed_error : Text

unfoldable pub new_item : Job → Item
new_item job = record {
  id = job.id;
  original_key = job.original_key;
  result_key = job.result_key;
  status = status_text job.status;
  width = job.transformation.width;
  height = job.transformation.height;
  format = format_text job.transformation.output;
  quality = job.transformation.quality;
  watermark = job.transformation.watermark;
  strip_metadata = job.transformation.strip_metadata;
  created_at_unix = job.created_at;
  updated_at_unix = job.updated_at;
  processed_error = job.error;
}

unfoldable pub to_domain : Item → Job
to_domain i = record {
  id = i.id;
  original_key = i.original_key;
  result_key = i.result_key;
  status = job_status i.status;
  transformation = record {
    width = i.width;
    height = i.height;
    output = format_spec i.format;
    quality = i.quality;
    watermark = i.watermark;
    strip_metadata = i.strip_metadata;
  };
  created_at = i.created_at_unix;
  updated_at = i.updated_at_unix;
  error = i.processed_error;
}

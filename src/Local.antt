-- ===== src/Local.antt =====
-- The local backend of internal/adapters/backend.go as one world: the in-memory repository, the
-- state of the request's context, and the stored objects.
pub mod Contract
pub mod Expiry
pub mod Race
use image_forge.Prelude.{Option, some, List, Text}
use image_forge.Errors.{Error}
use image_forge.Ports.{Bytes, JobRepository}
use image_forge.Memrepo.{Repository, save, get, update_status}
use image_forge.Memrepo

pub record Host : Type 0 where
  pub repo : Repository
  -- what `ctx.Err()` returns now
  pub ctx_err : Option Error
  pub objects : List (Text × Bytes)

saved : Host → Repository × Option Error → Host × Option Error
saved h (r, e) = (record h { repo = r }, e)

-- The in-memory repository behind its port.
unfoldable pub repository : JobRepository Host
unfolding saved
repository = record {
  save = λ job h. saved h (Memrepo.save h.ctx_err (some job) h.repo);
  get = λ id h. (h, Memrepo.get h.ctx_err id h.repo);
  update_status = λ id s key f h. saved h (Memrepo.update_status h.ctx_err id s key f h.repo);
}

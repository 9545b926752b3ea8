-- ===== src/Memrepo.antt =====
-- internal/adapters/memrepo/memrepo.go. The mutex makes each call one step. `ctx_err` is the
-- result of `ctx.Err()` at the call, `clock` what the repository's clock reads next.
pub mod Laws
use image_forge.Prelude.{
  ℕ, not, Option, none, some, List, [], ◌++◌, Text, codes, text_eq, lookup, insert, if◌then◌else◌,
  length,
}
use image_forge.Errors.{job_not_found, Error, new, sentinel, wrap, Result, ok, err}
use image_forge.Domain.Job.{JobStatus, status_text, valid_status, Job}
use image_forge.Domain.Spec.{quote}
use image_forge.Ports.{error_text}

pub record Repository : Type 0 where
  pub jobs : List (Text × Job)
  pub clock : ℕ

unfoldable pub empty : ℕ → Repository
empty t = record { jobs = []; clock = t }

-- `JobRepository.Save`; no job is a nil pointer.
unfoldable pub save : Option Error → Option Job → Repository → Repository × Option Error
save (some e) job r = (r, some e)
save none none r = (r, some (new (codes "memrepo: save: nil job")))
save none (some job) r =
    if text_eq job.id []
    then (r, some (new (codes "memrepo: save: empty job id")))
    else (record r { jobs = insert job.id job r.jobs }, none)

found : Text → Option Job → Result Job
found id none = err (wrap (codes "memrepo: get " ++ id ++ codes ": ") (sentinel job_not_found) [])
found id (some job) = ok job

-- `JobRepository.Get`
unfoldable pub get : Option Error → Text → Repository → Result Job
unfolding found
get (some e) id r = err e
get none id r = found id (lookup id r.jobs)

-- The assignments of `UpdateStatus` to the job it has read.
unfoldable pub updated : JobStatus → Text → Option Error → ℕ → Job → Job
updated status key failure now job = record job {
  status = status;
  updated_at = now;
  result_key = if text_eq key [] then job.result_key else key;
  error = error_text failure;
}

write : Text → JobStatus → Text → Option Error → Repository → Option Job → Repository × Option Error
unfolding updated
write id status key failure r none =
    (r, some (wrap (codes "memrepo: update " ++ id ++ codes ": ") (sentinel job_not_found) []))
write id status key failure r (some job) =
    (record r { jobs = insert id (updated status key failure r.clock job) r.jobs }, none)

-- `JobRepository.UpdateStatus`
unfoldable pub update_status :
    Option Error → Text → JobStatus → Text → Option Error → Repository → Repository × Option Error
unfolding write
update_status (some e) id status key failure r = (r, some e)
update_status none id status key failure r =
    if not (valid_status status)
    then (
      r,
      some (
          new (
            codes "memrepo: update "
            ++ id
            ++ codes ": invalid status "
            ++ quote (status_text status))),
    )
    else write id status key failure r (lookup id r.jobs)

-- `JobRepository.Len`
unfoldable pub len : Repository → ℕ
len r = length r.jobs

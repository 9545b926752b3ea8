-- ===== src/Examples/Jobs.antt =====
-- The use cases over the in-memory repository at concrete inputs.
use image_forge.Prelude.{
  ◌≡◌, refl, ap, ◌≢◌, false, Option, none, some, [], ◌∷◌, codes, text_eq, lookup, insert, pos,
}
use image_forge.Errors.{
  queue_closed, deadline_exceeded, not_exist, new, sentinel, wrap, Result, ok, err,
}
use image_forge.Domain.Job.{processing, done, valid_status, Job}
use image_forge.Domain.Spec.{png, ext, TransformationSpec}
use image_forge.Ports.{Bytes, Storage, Queue, ImageProcessor, StorageLeaves, ProcessorLeaves}
use image_forge.Usecase.Keys.{original_key, result_key}
use image_forge.Usecase.CreateJob.{CreateJobInput}
use image_forge.Usecase.CreateJob
use image_forge.Usecase.ProcessJob.Lifecycle.{Ran, execute-Ran}
use image_forge.Usecase.ProcessJob.Outcome.{
  Evolves, IsDone, execute-Evolves, execute-IsDone, Refusal,
}
use image_forge.Usecase.ProcessJob
use image_forge.Memrepo.{Repository}
use image_forge.Memrepo
use image_forge.Local.{Host, repository}
use image_forge.Local.Contract.{stored, laws}
use image_forge.Local.Expiry.{Expires, expired-Refusal}
use image_forge.Local.Race.{Failed, resumed, execute-twice}

abbrev thumb_spec : TransformationSpec
thumb_spec = record {
  width = pos 64;
  height = pos 64;
  output = png;
  quality = pos 0;
  watermark = false;
  strip_metadata = false;
}

abbrev waiting_job : Job
waiting_job = CreateJob.new_job (codes "a1") thumb_spec 5

abbrev one_job : Repository
one_job = record { jobs = (codes "a1", waiting_job) ∷ []; clock = 9 }

abbrev host : Host
host = record { repo = one_job; ctx_err = none; objects = (codes "originals/a1", 1 ∷ 2 ∷ []) ∷ [] }

unfoldable pub fetched : Host → Option Bytes → Host × Result Bytes
fetched h none = (h, err (sentinel not_exist))
fetched h (some content) = (h, ok content)

-- Objects in the host's memory
unfoldable pub memory_storage : Storage Host
unfolding fetched
memory_storage = record {
  put = λ key content h. (record h { objects = insert key content h.objects }, none);
  fetch = λ key h. fetched h (lookup key h.objects);
}

abbrev copying : ImageProcessor Host
copying = record { process = λ src spec h. (h, ok src) }

-- A processor whose context runs out of time
abbrev overdue : ImageProcessor Host
overdue = record {
  process = λ src spec h.
      (record h { ctx_err = some (sentinel deadline_exceeded) }, err (sentinel deadline_exceeded));
}

fetched-repo : (h : Host) (o : Option Bytes) → (fetched h o).0 ≡ h
unfolding fetched
fetched-repo h none = refl
fetched-repo h (some content) = refl

pub memory_storage-StorageLeaves : StorageLeaves stored memory_storage
unfolding memory_storage
memory_storage-StorageLeaves = record {
  put_keeps = λ key content j h. refl;
  fetch_keeps = λ key j h. ap (λ (x : Host). stored x j) (fetched-repo h (lookup key h.objects));
}

copying-ProcessorLeaves : ProcessorLeaves stored copying
copying-ProcessorLeaves = record { process_keeps = λ src spec j h. refl }

overdue-ProcessorLeaves : ProcessorLeaves stored overdue
overdue-ProcessorLeaves = record { process_keeps = λ src spec j h. refl }

owned : (b : Job) → stored host (codes "a1") ≡ some b → b.id ≡ codes "a1"
unfolding lookup text_eq
owned b e = cc

execute-Ran_example :
    let r = ProcessJob.execute memory_storage repository copying (codes "a1") host in
    Ran (codes "a1") (stored host) (stored r.0) r.1 r.2
execute-Ran_example =
    execute-Ran memory_storage repository copying laws memory_storage-StorageLeaves
      copying-ProcessorLeaves (codes "a1") host owned

execute-Evolves_example :
    Evolves (stored host (codes "a1")) (
      stored
        (ProcessJob.execute memory_storage repository copying (codes "a1") host).0
        (codes "a1"))
execute-Evolves_example =
    execute-Evolves memory_storage repository copying laws memory_storage-StorageLeaves
      copying-ProcessorLeaves (codes "a1") (codes "a1") host owned

-- The run of the host's job succeeds.
succeeds : (ProcessJob.execute memory_storage repository copying (codes "a1") host).2 ≡ none
unfolding ProcessJob.execute ProcessJob.loaded ProcessJob.checked ProcessJob.claimed
    ProcessJob.worked ProcessJob.transform repository Memrepo.get Memrepo.update_status valid_status
    lookup insert text_eq memory_storage fetched original_key
succeeds = refl

execute-IsDone_example :
    let r = ProcessJob.execute memory_storage repository copying (codes "a1") host in
    IsDone (codes "a1") (stored host) (stored r.0) r.1
execute-IsDone_example =
    execute-IsDone memory_storage repository copying laws memory_storage-StorageLeaves
      copying-ProcessorLeaves (codes "a1") host owned succeeds

abbrev done_host : Host
done_host = record host {
  repo = record { jobs = (codes "a1", record waiting_job { status = done }) ∷ []; clock = 9 };
}

expires :
    Expires memory_storage overdue
      (codes "a1")
      waiting_job
      (wrap (codes "transform: ") (sentinel deadline_exceeded) [])
      (sentinel deadline_exceeded)
      host
unfolding ProcessJob.transform repository Memrepo.get Memrepo.update_status valid_status lookup
    insert text_eq memory_storage fetched original_key
expires = record { got = refl; pend = refl; claims = refl; failing = refl; late = refl }

expired-Refusal_example :
    let r = ProcessJob.execute memory_storage repository overdue (codes "a1") host in
    let h' = record r.0 { ctx_err = none } in
    (a : Job) × (r.2 ≢ none)
    × (stored h' (codes "a1") ≡ some a)
    × (a.status ≡ processing)
    × Refusal memory_storage repository overdue a h'
        (ProcessJob.execute memory_storage repository overdue (codes "a1") h')
expired-Refusal_example =
    expired-Refusal memory_storage overdue memory_storage-StorageLeaves overdue-ProcessorLeaves
      (codes "a1") waiting_job (wrap (codes "transform: ") (sentinel deadline_exceeded) [])
      (sentinel deadline_exceeded) host expires

made_once : Option Bytes → Bytes → Host → Host × Result Bytes
made_once none src h = (h, ok src)
made_once (some result) src h = (h, err (new (codes "out of memory")))

-- A processor that has the memory for one run
abbrev once : ImageProcessor Host
once = record {
  process = λ src spec h. made_once (lookup (codes "results/a1.png") h.objects) src h;
}

made_once-same : (o : Option Bytes) (src : Bytes) (h : Host) → (made_once o src h).0 ≡ h
unfolding made_once
made_once-same none src h = refl
made_once-same (some result) src h = refl

once-ProcessorLeaves : ProcessorLeaves stored once
once-ProcessorLeaves = record {
  process_keeps = λ src spec j h. ap (λ (x : Host). stored x j) (made_once-same _ src h);
}

execute-twice_example :
    let first = ProcessJob.execute memory_storage repository once (codes "a1") host in
    IsDone (codes "a1") (stored host) (stored first.0) first.1
    × Failed memory_storage once
        (codes "a1")
        (resumed memory_storage once (codes "a1") host first.0)
unfolding ProcessJob.execute ProcessJob.loaded ProcessJob.checked ProcessJob.claimed
    ProcessJob.worked ProcessJob.transform repository Memrepo.get Memrepo.update_status valid_status
    lookup insert text_eq memory_storage fetched original_key made_once result_key ext
execute-twice_example =
    execute-twice memory_storage once memory_storage-StorageLeaves once-ProcessorLeaves waiting_job
      (wrap (codes "transform: ") (new (codes "out of memory")) []) host refl refl refl refl refl
      refl refl

-- A queue that is closed, and a generator and a clock that stand still
abbrev closed_queue : Queue Host
closed_queue = record { enqueue = λ id h. (h, some (sentinel queue_closed)) }

abbrev upload : CreateJobInput
upload = record { source = some (1 ∷ 2 ∷ []); spec = thumb_spec }

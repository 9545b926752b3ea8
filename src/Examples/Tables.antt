-- ===== src/Examples/Tables.antt =====
-- The DynamoDB repository at concrete inputs, over a table in memory whose attribute holds the item.
use image_forge.Prelude.{
  ◌≡◌, refl, sym, ap, ◌∙◌, subst, ◌≢◌, ◌⊎◌, inl, inr, Bool, true, false, Option, none, some, List,
  [], ◌∷◌, arith, Text, codes, text_eq, lookup-insert_self, lookup, insert, Option-cases, pos,
}
use image_forge.Errors.{job_not_found, Error, new, is, message, Result, ok, err}
use image_forge.Domain.Job.{processing, done, valid_status, Job}
use image_forge.Domain.Spec.{png, valid_format}
use image_forge.Dynamorepo.{Item}
use image_forge.Dynamorepo.Table.{
  Attributes, Client, item_key, save, get, update_input, update_status,
}
use image_forge.Dynamorepo.Table.Reads.{
  attributes_of, Documented, get-save_stored, Updated, update_status-not_found,
}

data Value : Type 0 where
  whole : Item → Value
  string : Text → Value
  numeral : Text → Value

abbrev Rows : Type 0
Rows = List (Text × Attributes Value)

unmarshalled : Attributes Value → Result Item
unmarshalled ((_, whole i) ∷ _) = ok i
unmarshalled _ = err (new (codes "no item"))

put_row : Attributes Value → Rows → Rows × Option Error
put_row ((k, whole i) ∷ attrs) w = (insert i.id ((k, whole i) ∷ attrs) w, none)
put_row _ w = (w, some (new (codes "ValidationException")))

row_at : Option (Attributes Value) → Result (Attributes Value)
row_at none = ok []
row_at (some attrs) = ok attrs

get_row : Attributes Value → Rows → Rows × Result (Attributes Value)
unfolding row_at
get_row ((_, string id) ∷ _) w = (w, row_at (lookup id w))
get_row _ w = (w, err (new (codes "ValidationException")))

-- A refused update leaves the rows; one that is accepted changes no field the reads below look at.
update_row : Attributes Value → Rows → Rows × Option Error
update_row ((_, string id) ∷ _) w = elim (lookup id w) [
  | none ↦ (w, some (new (codes "ConditionalCheckFailedException")))
  | some attrs ↦ (w, none)
]
update_row _ w = (w, some (new (codes "ValidationException")))

refused : Error → Bool
unfolding text_eq
refused e = text_eq (message e) (codes "ConditionalCheckFailedException")

abbrev memory_client : Client Rows Value
unfolding unmarshalled put_row get_row update_row refused
memory_client = record {
  member_s = string;
  member_n = numeral;
  marshal = λ i. ok ((codes "item", whole i) ∷ []);
  unmarshal = unmarshalled;
  put_item = λ table attrs w. put_row attrs w;
  get_item = λ input w. get_row input.key w;
  update_item = λ input w. update_row input.key w;
  condition_failed = refused;
}

update_row-new :
    (key : Attributes Value) (w : Rows) (e : Error)
    → (update_row key w).1 ≡ some e
    → is e job_not_found ≡ false
unfolding update_row is
update_row-new [] w e h = ground arith
update_row-new ((_, whole i) ∷ _) w e h = ground arith
update_row-new ((_, numeral n) ∷ _) w e h = ground arith
update_row-new ((_, string id) ∷ _) w e h = ground arith

get_row-new :
    (key : Attributes Value) (w : Rows) (e : Error)
    → (get_row key w).1 ≡ err e
    → is e job_not_found ≡ false
unfolding get_row row_at is
get_row-new [] w e h = ground arith
get_row-new ((_, whole i) ∷ _) w e h = ground arith
get_row-new ((_, numeral n) ∷ _) w e h = ground arith
get_row-new ((_, string id) ∷ _) w e h = ground arith

abbrev attributes_of_item : Item → Attributes Value
attributes_of_item i = (codes "item", whole i) ∷ []

get_row-reads :
    (id : Text) (w : Rows)
    → (get_row (item_key memory_client (codes "jobs") id) w).1 ≡ ok (attributes_of (lookup id w))
unfolding memory_client get_row row_at item_key
get_row-reads id w = elim (Option-cases (lookup id w)) [
  | inl e ↦ rw e refl
  | inr (attrs, e) ↦ rw e refl
]

attributes_of-marshal :
    (i : Item) (attrs : Attributes Value)
    → memory_client.marshal i ≡ ok attrs
    → attributes_of_item i ≡ attrs
unfolding memory_client
attributes_of-marshal i attrs h = cc

marshal_some : (i : Item) → memory_client.marshal i ≢ ok []
unfolding memory_client
marshal_some i h = ground arith

put_row-writes :
    (i : Item) (attrs : Attributes Value) (w : Rows)
    → attributes_of_item i ≡ attrs
    → lookup i.id (put_row attrs w).0 ≡ some attrs
unfolding put_row
put_row-writes i attrs w h =
    subst (λ a. lookup i.id (put_row a w).0 ≡ some a) h
      (lookup-insert_self i.id (attributes_of_item i) w)

update_row-absent :
    (id : Text) (w : Rows)
    → lookup id w ≡ none
    → let r = update_row ((codes "id", string id) ∷ []) w in
      (c : Error) × (r.1 ≡ some c) × (lookup id r.0 ≡ none)
unfolding update_row
update_row-absent id w h = rw (h, update_row) (_, refl, h)

update_row-failed :
    (id : Text) (w : Rows) (c : Error)
    → (update_row ((codes "id", string id) ∷ []) w).1 ≡ some c
    → lookup id w ≡ none
unfolding update_row
update_row-failed id w c h = elim (Option-cases (lookup id w)) [
  | inl e ↦ e
  | inr (attrs, e) ↦
      absurd (let x : ◌≡◌ {A = Option Error} none (some c) = rw (e, update_row) at h in cc)
]

memory_client-Documented : Documented memory_client (codes "jobs")
unfolding memory_client unmarshalled item_key
memory_client-Documented = record {
  item_at = λ w id. lookup id w;
  marshal_some = marshal_some;
  unmarshal-marshal =
      λ i attrs h. subst (λ a. unmarshalled a ≡ ok i) (attributes_of-marshal i attrs h) refl;
  get_own = λ input w e h. get_row-new input.key w e h;
  update_own = λ input w e h. update_row-new input.key w e h;
  put_writes = λ i attrs w m n. put_row-writes i attrs w (attributes_of-marshal i attrs m);
  get_reads = λ id input w r. inl (ap (λ k. (get_row k w).1) r.of_item ∙ get_row-reads id w);
  update_absent = λ id input w g gone.
      subst
        (λ k. (c : Error) × ((update_row k w).1 ≡ some c) × (lookup id (update_row k w).0 ≡ none))
        (sym g.of_item) (update_row-absent id w gone);
  condition_failed_absent = λ id input w c g failing f.
      update_row-failed id w c (ap (λ k. (update_row k w).1) (sym g.of_item) ∙ failing);
}

abbrev stored_job : Job
stored_job = record {
  id = codes "a1";
  original_key = codes "originals/a1";
  result_key = [];
  status = processing;
  transformation = record {
    width = pos 64;
    height = pos 0;
    output = png;
    quality = pos 80;
    watermark = true;
    strip_metadata = false;
  };
  created_at = 5;
  updated_at = 7;
  error = [];
}

get-save_stored_example :
    ((get memory_client
        (codes "jobs")
        (codes "a1")
        (save memory_client (codes "jobs") (some stored_job) []).0).1
      ≡ ok stored_job)
    ⊎ ((e : Error) × ((get memory_client
            (codes "jobs")
            (codes "a1")
            (save memory_client (codes "jobs") (some stored_job) []).0).1
          ≡ err e)
        × (is e job_not_found ≡ false))
unfolding save text_eq valid_status valid_format memory_client
get-save_stored_example =
    get-save_stored memory_client (codes "jobs") memory_client-Documented stored_job [] refl refl
      refl

not_empty : codes "b2" ≢ []
not_empty e = ground arith

-- No job has this id.
update_status-not_found_example :
    Updated memory_client
      (codes "jobs")
      memory_client-Documented
      (codes "b2")
      []
      (memory_client.update_item
        (update_input memory_client (codes "jobs") (codes "b2") done [] none 9)
        [])
      (update_status memory_client (codes "jobs") (codes "b2") done [] none 9 [])
unfolding valid_status
update_status-not_found_example =
    update_status-not_found memory_client (codes "jobs") memory_client-Documented (codes "b2") done
      [] none 9 [] not_empty refl

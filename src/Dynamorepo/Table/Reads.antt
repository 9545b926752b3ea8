-- ===== src/Dynamorepo/Table/Reads.antt =====
-- What a job that DynamoDB has stored is read back as, and which errors say that no job is there.
use image_forge.Dynamorepo.RoundTrip.{to_domain-new_item}
use image_forge.Domain.Spec.{valid_format}
use image_forge.Prelude.{
  ℕ, ◌≡◌, refl, sym, ap, ◌∙◌, subst, ◌≢◌, ◌⊎◌, inl, inr, true, false, Option, none, some, [], ◌∷◌,
  arith, Text, codes, text_eq-eq, text_eq, lookup-insert_self, lookup, Bool-cases, Option-cases,
}
use image_forge.Errors.{job_not_found, Error, is, Result, ok, err}
use image_forge.Domain.Job.{JobStatus, valid_status, Job}
use image_forge.Dynamorepo.{Item, new_item, to_domain}
use image_forge.Dynamorepo.Table.{
  Attributes, GetItemInput, UpdateItemInput, Client, with_key_name, attribute_names, item_key,
  put_done, put_marshalled, save, decoded, got, get_input, get, update_input, update_done,
  update_status,
}

-- A strongly consistent read of the item with this id.
pub record IsRead {W V : Type 0} (client : Client W V) (table id : Text) (input : GetItemInput V)
    : Type 0 where
  pub of_table : input.table_name ≡ table
  pub of_item : input.key ≡ (codes "id", client.member_s id) ∷ []
  pub is_consistent : input.consistent_read ≡ true

-- An update of the item with this id on the condition that it exists.
pub record IsGuarded {W V : Type 0} (client : Client W V) (table id : Text)
    (input : UpdateItemInput V) : Type 0 where
  pub of_table : input.table_name ≡ table
  pub of_item : input.key ≡ (codes "id", client.member_s id) ∷ []
  pub condition : input.condition_expression ≡ codes "attribute_exists(#key)"
  pub condition_name : lookup (codes "#key") input.names ≡ some (codes "id")

abbrev pub attributes_of : {V : Type 0} → Option (Attributes V) → Attributes V
attributes_of none = []
attributes_of (some attrs) = attrs

-- What the SDK documents of a table whose key is the attribute id, `item_at` being what the table
-- holds: an item is marshalled into at least one attribute and unmarshalled from what it was
-- marshalled into; a put that succeeds writes its item; a strongly consistent read fails or returns
-- what is held; an update on the condition that the key exists fails on an item that is not there
-- and does not make one, and only then says that its condition failed; the client's errors are its
-- own.
pub record Documented {W V : Type 0} (client : Client W V) (table : Text) : Type 0 where
  pub item_at : W → Text → Option (Attributes V)
  pub marshal_some : (i : Item) → client.marshal i ≢ ok []
  pub unmarshal-marshal :
      (i : Item) (attrs : Attributes V)
      → client.marshal i ≡ ok attrs
      → client.unmarshal attrs ≡ ok i
  pub get_own :
      (input : GetItemInput V) (w : W) (e : Error)
      → (client.get_item input w).1 ≡ err e
      → is e job_not_found ≡ false
  pub update_own :
      (input : UpdateItemInput V) (w : W) (e : Error)
      → (client.update_item input w).1 ≡ some e
      → is e job_not_found ≡ false
  pub put_writes :
      (i : Item) (attrs : Attributes V) (w : W)
      → client.marshal i ≡ ok attrs
      → (client.put_item table attrs w).1 ≡ none
      → item_at (client.put_item table attrs w).0 i.id ≡ some attrs
  pub get_reads :
      (id : Text) (input : GetItemInput V) (w : W)
      → IsRead client table id input
      → ((client.get_item input w).1 ≡ ok (attributes_of (item_at w id)))
        ⊎ ((e : Error) × ((client.get_item input w).1 ≡ err e))
  pub update_absent :
      (id : Text) (input : UpdateItemInput V) (w : W)
      → IsGuarded client table id input
      → item_at w id ≡ none
      → (c : Error) × ((client.update_item input w).1 ≡ some c)
        × (item_at (client.update_item input w).0 id ≡ none)
  pub condition_failed_absent :
      (id : Text) (input : UpdateItemInput V) (w : W) (c : Error)
      → IsGuarded client table id input
      → (client.update_item input w).1 ≡ some c
      → client.condition_failed c ≡ true
      → item_at w id ≡ none

module _ {W V : Type 0} (client : Client W V) (table : Text) where
  put_done-none :
      (id : Text) (p : W × Option Error)
      → (put_done client table id p).1 ≡ none
      → (p.1 ≡ none) × ((put_done client table id p).0 ≡ p.0)
  unfolding put_done
  put_done-none id (w, none) h = (refl, refl)
  put_done-none id (w, some e) h = cc

  put_marshalled-none :
      (id : Text) (m : Result (Attributes V)) (w : W)
      → (put_marshalled client table id m w).1 ≡ none
      → (attrs : Attributes V) × (m ≡ ok attrs)
        × ((client.put_item table attrs w).1 ≡ none)
        × ((put_marshalled client table id m w).0 ≡ (client.put_item table attrs w).0)
  unfolding put_marshalled
  put_marshalled-none id (err e) w h = cc
  put_marshalled-none id (ok attrs) w h =
      let (a, b) = put_done-none id (client.put_item table attrs w) h in (attrs, refl, a, b)

  save_some :
      (job : Job) (w : W)
      → (save client table (some job) w).1 ≡ none
      → (text_eq job.id [] ≡ false)
        × (save client table (some job) w
            ≡ put_marshalled client table job.id (client.marshal (new_item job)) w)
  unfolding save
  save_some job w h = ground arith

  save-none :
      (job : Job) (w : W)
      → (save client table (some job) w).1 ≡ none
      → (attrs : Attributes V) × (client.marshal (new_item job) ≡ ok attrs)
        × ((client.put_item table attrs w).1 ≡ none)
        × ((save client table (some job) w).0 ≡ (client.put_item table attrs w).0)
  save-none job w h =
      let (b, e) = save_some job w h in
      let (attrs, m, n, k) =
        put_marshalled-none job.id (client.marshal (new_item job)) w (ap (λ p. p.1) (sym e) ∙ h) in
      (attrs, m, n, ap (λ p. p.0) e ∙ k)

  got-ok :
      (id : Text) (p : W × Result (Attributes V)) (i : Item) (attrs : Attributes V)
      → p.1 ≡ ok attrs
      → attrs ≢ []
      → client.unmarshal attrs ≡ ok i
      → (got client table id p).1 ≡ ok (to_domain i)
  unfolding got decoded
  got-ok id (w, err e) i attrs h k u = cc
  got-ok id (w, ok []) i attrs h k u = ground arith
  got-ok id (w, ok (a ∷ rest)) i attrs h k u = ground arith

  get_some :
      (id : Text) (w : W)
      → text_eq id [] ≡ false
      → get client table id w ≡ got client table id (client.get_item (get_input client table id) w)
  unfolding get
  get_some id w h = ground arith

  got-err :
      (id : Text) (p : W × Result (Attributes V)) (e : Error)
      → p.1 ≡ err e
      → (e' : Error) × ((got client table id p).1 ≡ err e')
        × (is e' job_not_found ≡ is e job_not_found)
  unfolding got is
  got-err id (w, err e') e h = (_, refl, ground arith)
  got-err id (w, ok []) e h = cc
  got-err id (w, ok (a ∷ rest)) e h = cc

  -- What `UpdateStatus` makes of the client's answer.
  update_done-none :
      (id : Text) (p : W × Option Error) → p.1 ≡ none → (update_done client table id p).1 ≡ none
  unfolding update_done
  update_done-none id (w, none) h = refl
  update_done-none id (w, some e) h = cc

  update_done-some :
      (id : Text) (p : W × Option Error) (c : Error)
      → p.1 ≡ some c
      → is c job_not_found ≡ false
      → (e : Error) × ((update_done client table id p).1 ≡ some e)
        × ((update_done client table id p).0 ≡ p.0)
        × (is e job_not_found ≡ client.condition_failed c)
  unfolding update_done is
  update_done-some id (w, none) c h q = cc
  update_done-some id (w, some x) c h q = (_, refl, refl, ground (arith, q, ap (λ o. o) h))

  get_input-IsRead : (id : Text) → IsRead client table id (get_input client table id)
  unfolding get_input item_key
  get_input-IsRead id = record { of_table = refl; of_item = refl; is_consistent = refl }

  update_input-IsGuarded :
      (id : Text) (status : JobStatus) (result_key : Text) (failure : Option Error) (now : ℕ)
      → IsGuarded client table id (update_input client table id status result_key failure now)
  unfolding update_input item_key with_key_name
  update_input-IsGuarded id status result_key failure now = record {
    of_table = refl;
    of_item = refl;
    condition = refl;
    condition_name = lookup-insert_self (codes "#key") (codes "id") (attribute_names result_key);
  }

  update_some :
      (id : Text) (status : JobStatus) (result_key : Text) (failure : Option Error) (now : ℕ)
      (w : W)
      → id ≢ []
      → valid_status status ≡ true
      → update_status client table id status result_key failure now w
        ≡ update_done client table id
            (client.update_item (update_input client table id status result_key failure now) w)
  unfolding update_status
  update_some id status result_key failure now w n v = ground (arith, text_eq-eq id [])

  -- Once DynamoDB has stored a job with a known status and a supported format, `Get` returns that
  -- very job or an error of the client, never that the job is not found.
  pub get-save_stored :
      (docs : Documented client table) (job : Job) (w : W)
      → valid_status job.status ≡ true
      → valid_format job.transformation.output ≡ true
      → (save client table (some job) w).1 ≡ none
      → ((get client table job.id (save client table (some job) w).0).1 ≡ ok job)
        ⊎ ((e : Error) × ((get client table job.id (save client table (some job) w).0).1 ≡ err e)
            × (is e job_not_found ≡ false))
  unfolding new_item
  get-save_stored docs job w s f h =
      let (b, _) = save_some job w h in
      let (attrs, m, n, k) = save-none job w h in
      let after = (client.put_item table attrs w).0 in
      let reads =
        ap (λ u. (get client table job.id u).1) k ∙ ap (λ p. p.1) (get_some job.id after b) in
      let read = client.get_item (get_input client table job.id) after in
      let there = docs.put_writes (new_item job) attrs w m n in
      elim (docs.get_reads job.id (get_input client table job.id) after (get_input-IsRead job.id)) [
        | inl r ↦ inl (
            reads
            ∙ got-ok job.id read (new_item job) attrs (r ∙ ap (λ o. ok (attributes_of o)) there)
                (λ z. docs.marshal_some (new_item job) (m ∙ ap ok z))
                (docs.unmarshal-marshal (new_item job) attrs m)
            ∙ ap ok (to_domain-new_item job s f))
        | inr (e, r) ↦
            let (e', a, q) = got-err job.id read e r in
            inr (e', reads ∙ a, q ∙ docs.get_own (get_input client table job.id) after e r)
      ]

  -- What an update of a job's status comes to, by the client's answer and the returned one: where
  -- there is no such job, an error, which says so exactly where the client's says that the condition
  -- failed, and still no such job; where there is one, success, or an error that does not say that
  -- the job is missing.
  abbrev pub Updated :
      Documented client table → Text → W → W × Option Error → W × Option Error → Type 0
  Updated docs id w answer r =
      ((docs.item_at w id ≡ none)
        × (docs.item_at r.0 id ≡ none)
        × (c : Error) × (e : Error) × (answer.1 ≡ some c)
        × (r.1 ≡ some e)
        × (is e job_not_found ≡ client.condition_failed c))
      ⊎ ((attrs : Attributes V) × (docs.item_at w id ≡ some attrs)
          × ((r.1 ≡ none) ⊎ ((e : Error) × (r.1 ≡ some e) × (is e job_not_found ≡ false))))

  update_absent-Updated :
      (docs : Documented client table) (id : Text) (input : UpdateItemInput V) (w : W)
      → IsGuarded client table id input
      → docs.item_at w id ≡ none
      → Updated docs id w
          (client.update_item input w)
          (update_done client table id (client.update_item input w))
  update_absent-Updated docs id input w g gone =
      let (c, failing, still) = docs.update_absent id input w g gone in
      let (e, error, same, says) =
        update_done-some id (client.update_item input w) c failing
          (docs.update_own input w c failing) in
      inl (gone, ap (λ v. docs.item_at v id) same ∙ still, c, e, failing, error, says)

  present-not_failed :
      (docs : Documented client table) (id : Text) (input : UpdateItemInput V) (w : W)
      (attrs : Attributes V) (c : Error)
      → IsGuarded client table id input
      → docs.item_at w id ≡ some attrs
      → (client.update_item input w).1 ≡ some c
      → client.condition_failed c ≡ false
  present-not_failed docs id input w attrs c g there failing =
      elim (Bool-cases (client.condition_failed c)) [
        | inl f ↦
            let gone = docs.condition_failed_absent id input w c g failing f in
            absurd (ground (arith, gone, there))
        | inr f ↦ f
      ]

  update_present-Updated :
      (docs : Documented client table) (id : Text) (input : UpdateItemInput V) (w : W)
      (attrs : Attributes V)
      → IsGuarded client table id input
      → docs.item_at w id ≡ some attrs
      → Updated docs id w
          (client.update_item input w)
          (update_done client table id (client.update_item input w))
  update_present-Updated docs id input w attrs g there =
      elim (Option-cases (client.update_item input w).1) [
        | inl worked ↦
            inr (attrs, there, inl (update_done-none id (client.update_item input w) worked))
        | inr (c, failing) ↦
            let (e, error, _, says) =
              update_done-some id (client.update_item input w) c failing
                (docs.update_own input w c failing) in
            inr (
              attrs,
              there,
              inr (e, error, says ∙ present-not_failed docs id input w attrs c g there failing),
            )
      ]

  -- For a job id and a known status, `UpdateStatus` fails where no such job is stored and makes
  -- none, and it says that the job is not found only then, and whenever the client says that the
  -- condition of the update has failed.
  pub update_status-not_found :
      (docs : Documented client table) (id : Text) (status : JobStatus) (result_key : Text)
      (failure : Option Error) (now : ℕ) (w : W)
      → id ≢ []
      → valid_status status ≡ true
      → Updated docs id w
          (client.update_item (update_input client table id status result_key failure now) w)
          (update_status client table id status result_key failure now w)
  update_status-not_found docs id status result_key failure now w n v =
      let input = update_input client table id status result_key failure now in
      let g = update_input-IsGuarded id status result_key failure now in
      subst (Updated docs id w (client.update_item input w))
        (sym (update_some id status result_key failure now w n v))
        (elim (Option-cases (docs.item_at w id)) [
          | inl gone ↦ update_absent-Updated docs id input w g gone
          | inr (attrs, there) ↦ update_present-Updated docs id input w attrs g there
        ])

-- ===== src/Dynamorepo/Table.antt =====
-- internal/adapters/dynamorepo/dynamorepo.go: the repository's calls of DynamoDB. The client and the
-- SDK's marshalling are parameters; `V` is the SDK's AttributeValue. A call of the client acts on
-- the world `W`. The context is part of the world.
pub mod Reads
use image_forge.Prelude.{
  ℕ, Bool, true, not, Option, none, some, List, [], ◌∷◌, ◌++◌, Text, codes, text_eq, decimal, blank,
  insert, if◌then◌else◌,
}
use image_forge.Errors.{job_not_found, Error, new, sentinel, wrap, message, Result, ok, err}
use image_forge.Domain.Job.{JobStatus, status_text, valid_status, Job}
use image_forge.Domain.Spec.{quote}
use image_forge.Dynamorepo.{Item, new_item, to_domain}

abbrev pub Attributes : Type 0 → Type 0
Attributes V = List (Text × V)

pub record GetItemInput (V : Type 0) : Type 0 where
  pub table_name : Text
  pub key : Attributes V
  pub consistent_read : Bool

pub record UpdateItemInput (V : Type 0) : Type 0 where
  pub table_name : Text
  pub key : Attributes V
  pub update_expression : Text
  pub condition_expression : Text
  pub names : Attributes Text
  pub values : Attributes V

-- What the repository calls of the SDK. A missing item is read as no attributes, and
-- `condition_failed` is `errors.As` with ConditionalCheckFailedException.
pub record Client (W V : Type 0) : Type 0 where
  pub member_s : Text → V
  pub member_n : Text → V
  pub marshal : Item → Result (Attributes V)
  pub unmarshal : Attributes V → Result Item
  pub put_item : Text → Attributes V → W → W × Option Error
  pub get_item : GetItemInput V → W → W × Result (Attributes V)
  pub update_item : UpdateItemInput V → W → W × Option Error
  pub condition_failed : Error → Bool

abbrev pub key_attribute : Text
key_attribute = codes "id"

error_text : Option Error → Text
error_text none = []
error_text (some e) = message e

with_key_name : Attributes Text → Attributes Text
with_key_name names = insert (codes "#key") key_attribute names

-- `strings.Join`
join_texts : Text → List Text → Text
join_texts sep [] = []
join_texts sep (s ∷ []) = s
join_texts sep (s ∷ t ∷ ts) = s ++ sep ++ join_texts sep (t ∷ ts)

-- The clauses of the update, the last where there is a result key.
assignments : Text → List Text
assignments result_key =
    codes "#status = :status"
    ∷ codes "#updated_at = :updated_at"
    ∷ codes "#error = :error"
    ∷ (if text_eq result_key [] then [] else codes "#result_key = :result_key" ∷ [])

attribute_names : Text → Attributes Text
attribute_names result_key =
    let names =
      (codes "#status", codes "status")
      ∷ (codes "#updated_at", codes "updated_at")
      ∷ (codes "#error", codes "error")
      ∷ [] in
    if text_eq result_key [] then names else insert (codes "#result_key") (codes "result_key") names

module _ {W V : Type 0} (client : Client W V) (table : Text) where
  -- `key`
  unfoldable pub item_key : Text → Attributes V
  item_key id = (key_attribute, client.member_s id) ∷ []

  put_done : Text → W × Option Error → W × Option Error
  put_done id (w, none) = (w, none)
  put_done id (w, some e) = (w, some (wrap (codes "dynamorepo: save " ++ id ++ codes ": ") e []))

  put_marshalled : Text → Result (Attributes V) → W → W × Option Error
  unfolding put_done
  put_marshalled id (err e) w =
      (w, some (wrap (codes "dynamorepo: save " ++ id ++ codes ": marshal: ") e []))
  put_marshalled id (ok attrs) w = put_done id (client.put_item table attrs w)

  -- `JobRepository.Save`; no job is a nil pointer.
  unfoldable pub save : Option Job → W → W × Option Error
  unfolding put_marshalled
  save none w = (w, some (new (codes "dynamorepo: save: nil job")))
  save (some job) w =
      if text_eq job.id []
      then (w, some (new (codes "dynamorepo: save: empty job id")))
      else put_marshalled job.id (client.marshal (new_item job)) w

  decoded : Text → Result Item → Result Job
  decoded id (err e) = err (wrap (codes "dynamorepo: get " ++ id ++ codes ": unmarshal: ") e [])
  decoded id (ok stored) = ok (to_domain stored)

  got : Text → W × Result (Attributes V) → W × Result Job
  unfolding decoded
  got id (w, err e) = (w, err (wrap (codes "dynamorepo: get " ++ id ++ codes ": ") e []))
  got id (w, ok []) =
      (w, err (wrap (codes "dynamorepo: get " ++ id ++ codes ": ") (sentinel job_not_found) []))
  got id (w, ok (a ∷ attrs)) = (w, decoded id (client.unmarshal (a ∷ attrs)))

  unfoldable pub get_input : Text → GetItemInput V
  unfolding item_key
  get_input id = record { table_name = table; key = item_key id; consistent_read = true }

  -- `JobRepository.Get`
  unfoldable pub get : Text → W → W × Result Job
  unfolding got get_input
  get id w =
      if text_eq id []
      then (w, err (wrap (codes "dynamorepo: get: ") (sentinel job_not_found) []))
      else got id (client.get_item (get_input id) w)

  attribute_values : JobStatus → Text → Option Error → ℕ → Attributes V
  unfolding error_text
  attribute_values status result_key failure now =
      let values =
        (codes ":status", client.member_s (status_text status))
        ∷ (codes ":updated_at", client.member_n (decimal now))
        ∷ (codes ":error", client.member_s (error_text failure))
        ∷ [] in
      if text_eq result_key []
      then values
      else insert (codes ":result_key") (client.member_s result_key) values

  unfoldable pub update_input : Text → JobStatus → Text → Option Error → ℕ → UpdateItemInput V
  unfolding item_key with_key_name join_texts assignments attribute_names attribute_values
  update_input id status result_key failure now = record {
    table_name = table;
    key = item_key id;
    update_expression = codes "SET " ++ join_texts (codes ", ") (assignments result_key);
    condition_expression = codes "attribute_exists(#key)";
    names = with_key_name (attribute_names result_key);
    values = attribute_values status result_key failure now;
  }

  update_done : Text → W × Option Error → W × Option Error
  update_done id (w, none) = (w, none)
  update_done id (w, some e) = (
    w,
    some (
        wrap (codes "dynamorepo: update " ++ id ++ codes ": ")
          (if client.condition_failed e then sentinel job_not_found else e) []),
  )

  -- `JobRepository.UpdateStatus`, at the instant `now` of the repository's clock.
  unfoldable pub update_status : Text → JobStatus → Text → Option Error → ℕ → W → W × Option Error
  unfolding update_done update_input
  update_status id status result_key failure now w =
      if text_eq id []
      then (w, some (wrap (codes "dynamorepo: update: ") (sentinel job_not_found) []))
      else if not (valid_status status)
      then (
        w,
        some (
            new (
              codes "dynamorepo: update "
              ++ id
              ++ codes ": invalid status "
              ++ quote (status_text status))),
      )
      else update_done id (client.update_item (update_input id status result_key failure now) w)

-- `New`, a client and a table or an error; no client is the nil pointer. Its options set the clock,
-- whose instant `update_status` is given.
unfoldable pub new_repository :
    {W V : Type 0} → Option (Client W V) → Text → Result (Client W V × Text)
new_repository none table = err (new (codes "dynamorepo: nil client"))
new_repository (some client) table =
    if blank table then err (new (codes "dynamorepo: table name is empty")) else ok (client, table)

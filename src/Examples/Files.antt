-- ===== src/Examples/Files.antt =====
-- The storages at concrete inputs.
use image_forge.Localstorage.Objects.{get-put}
use image_forge.Localstorage.Slash.{resolve-refuses}
use image_forge.Errors.{invalid_key, not_exist, Error, new, sentinel, wrap, is, message, ok, err}
use image_forge.Localstorage.Atomic.{IsAtomic, put-IsAtomic}
use image_forge.S3storage.{Client, validate_key}
use image_forge.S3storage.Objects.{IsMissing, get-not_exist}
use image_forge.Prelude.{
  ℕ, ◌≡◌, refl, sym, ap, ◌≢◌, ◌↔◌, Bool, true, false, not, ◌&&◌, none, some, List, [], ◌∷◌, ◌++◌,
  arith, Text, codes, text_eq_iff, text_eq, has_prefix, blank, contains, lookup, insert, delete,
  ◌==◌, All,
}
use image_forge.Localstorage.{Files, Answers, resolve}
use image_forge.Localstorage.FilePath.{rendered, clean}
use image_forge.Localstorage.Names.{LacksSlash, IsName}
use image_forge.Localstorage.Confined.{IsRoot, resolve-IsBelow}
use image_forge.S3storage as S3
use image_forge.Localstorage

abbrev srv : Text
srv = codes "/srv/img"

lacks_slash : Text → Bool
lacks_slash [] = true
lacks_slash (c ∷ s) = not (c == b'/') && lacks_slash s

lacks_slash_lem : (s : Text) → lacks_slash s ≡ true → LacksSlash s
unfolding lacks_slash
lacks_slash_lem [] h = tt
lacks_slash_lem (c ∷ s) h = ((λ e. ground arith), lacks_slash_lem s (ground arith))

-- A name of at least three bytes
word-IsName : (a b c : ℕ) (s : Text) → lacks_slash (a ∷ b ∷ c ∷ s) ≡ true → IsName (a ∷ b ∷ c ∷ s)
word-IsName a b c s h = ((λ e. cc), (λ e. cc), (λ e. cc), lacks_slash_lem (a ∷ b ∷ c ∷ s) h)

srv-IsRoot : IsRoot srv
unfolding rendered lacks_slash
srv-IsRoot = record {
  names = codes "img" ∷ codes "srv" ∷ [];
  are_names = (word-IsName _ _ _ _ refl, (word-IsName _ _ _ _ refl, tt));
  some_names = λ e. cc;
  path = refl;
}

-- A key that goes up and comes back stays below the root.
resolve-IsBelow_example :
    (names : List Text) × All IsName names
    × (names ≢ [])
    × (clean (codes "jobs/../results//a1.png") ≡ rendered names)
    × (codes "/srv/img/results/a1.png" ≡ srv ++ b'/' ∷ rendered names)
unfolding resolve blank contains has_prefix text_eq
resolve-IsBelow_example =
    resolve-IsBelow srv (codes "jobs/../results//a1.png") (codes "/srv/img/results/a1.png")
      srv-IsRoot refl

-- One file, and a disk that is full after two bytes
abbrev one_file : Files
one_file = (codes "/srv/img/a.png", 1 ∷ 2 ∷ 3 ∷ []) ∷ []

abbrev full_disk : Answers
full_disk = record {
  ctx_err = none;
  mkdir_all = none;
  create_temp = ok (codes "/srv/img/.tmp-1");
  written = 2;
  copy = some (new (codes "no space left on device"));
  close = none;
  rename = none;
  remove = none;
  open_file = none;
}

tmp-ne-path : codes "/srv/img/.tmp-1" ≢ codes "/srv/img/a.png"
unfolding text_eq
tmp-ne-path e =
    let h : ◌≡◌ {A = Bool} false true =
      (text_eq_iff (codes "/srv/img/.tmp-1") (codes "/srv/img/a.png")).1 e in
    cc

put-IsAtomic_example :
    IsAtomic one_file none
      (codes "/srv/img/a.png")
      (7 ∷ 8 ∷ 9 ∷ [])
      (codes "/srv/img/.tmp-1")
      (Localstorage.put srv full_disk (codes "a.png") (some (7 ∷ 8 ∷ 9 ∷ [])) one_file)
unfolding resolve lookup text_eq blank contains has_prefix
put-IsAtomic_example =
    put-IsAtomic srv full_disk (codes "a.png") (codes "/srv/img/a.png") (7 ∷ 8 ∷ 9 ∷ [])
      (codes "/srv/img/.tmp-1") one_file refl refl refl tmp-ne-path

abbrev working_disk : Answers
working_disk = record full_disk { copy = none }

get-put_example :
    Localstorage.get srv working_disk
      (codes "./a.png")
      (Localstorage.put srv working_disk (codes "a.png") (some (7 ∷ 8 ∷ 9 ∷ [])) one_file).left
    ≡ ok (7 ∷ 8 ∷ 9 ∷ [])
unfolding Localstorage.put resolve lookup text_eq blank contains has_prefix insert delete
get-put_example =
    get-put srv working_disk working_disk (codes "a.png") (codes "/srv/img/a.png") (7 ∷ 8 ∷ 9 ∷ [])
      (codes "/srv/img/.tmp-1") one_file (codes "./a.png") (codes "/srv/img/a.png") refl refl refl
      tmp-ne-path refl refl refl refl

-- A bucket without objects, whose answers carry a code alone.
abbrev bare_client : Client Unit
bare_client = record {
  upload = λ bucket key content size w. (w, none);
  get_object = λ bucket key w. (w, err (new (codes "NotFound")));
  is_no_such_key = λ e. false;
  is_no_such_bucket = λ e. false;
  api_code = λ e. some (message e);
}

abbrev media : S3.Bucket
media = record { name = codes "imageforge-media"; part_size = S3.default_part_size }

get-not_exist_example :
    (is (wrap (codes "s3storage: get \"a\": ") (sentinel not_exist) []) not_exist ≡ true) ↔ (
      (validate_key (codes "a") ≡ none)
      × (c : Error) × ((bare_client.get_object media.name (codes "a") tt).1 ≡ err c)
      × IsMissing bare_client media c)
unfolding S3.get is validate_key blank contains has_prefix text_eq message
get-not_exist_example =
    get-not_exist bare_client media (codes "a") tt
      (wrap (codes "s3storage: get \"a\": ") (sentinel not_exist) [])
      (λ c h. let e : new (codes "NotFound") ≡ c = ground arith in ap (λ x. is x not_exist) (sym e))
      refl

resolve-refuses_example :
    (e : Error) × (resolve (codes "/") (codes "results/a1.png") ≡ err e) × (is e invalid_key ≡ true)
resolve-refuses_example = resolve-refuses (codes "results/a1.png")

-- ===== src/Localstorage/Renamed.antt =====
-- A write by way of a temporary file, from its first byte to the rename.
use image_forge.Prelude.{
  ℕ, zero, suc, ◌≡◌, refl, ap, ◌∙◌, ◌≢◌, ◌⊎◌, inl, inr, Option, none, some, List, [], arith, Text,
  codes, text_eq-eq, text_eq_iff, text_eq, lookup-insert, lookup-insert_self, lookup-insert_ne,
  lookup-delete, lookup, insert, delete, if◌then◌else◌, Bool-cases, length, take, All, All-append,
}
use image_forge.Errors.{Error}
use image_forge.Ports.{Bytes}
use image_forge.Localstorage.{
  Files, Answers, Run, put_error, removed, moved, renamed, copying, cleaned, put_renamed,
  put_closed, put_copied,
}

-- The file at `j` is as it was, or it is the one that is written, whole.
abbrev pub IsOldOrNew : Files → Text → Bytes → Text → Files → Type 0
IsOldOrNew fs path content j s =
    (lookup j s ≡ lookup j fs) ⊎ ((path ≡ j) × (lookup j s ≡ some content))

-- A write of `content` to `path` by way of `tmp`, by what its parts keep.
pub record IsSafe (fs : Files) (remove : Option Error) (path : Text) (content : Bytes) (tmp : Text)
    (r : Run) : Type 0 where
  pub seen : (j : Text) → tmp ≢ j → All (IsOldOrNew fs path content j) r.seen
  pub wrote :
      r.result ≡ none
      → (j : Text) → lookup j r.left ≡ (if text_eq path j then some content else lookup j fs)
  pub kept :
      (e : Error) → r.result ≡ some e → remove ≡ none → (j : Text) → lookup j r.left ≡ lookup j fs

module _ (fs : Files) (path : Text) (content : Bytes) (tmp : Text) where
  copying-old :
      (j : Text) → tmp ≢ j → (n : ℕ) → All (IsOldOrNew fs path content j) (copying tmp content fs n)
  unfolding copying
  copying-old j h zero = (inl (lookup-insert_ne tmp j [] fs h), tt)
  copying-old j h (suc n) =
      All-append (IsOldOrNew fs path content j) (copying tmp content fs n) _ (copying-old j h n)
        (inl (lookup-insert_ne tmp j (take (suc n) content) fs h), tt)

  removed-old :
      (c : Bytes) (j : Text)
      → lookup tmp fs ≡ none
      → lookup j (removed none tmp (insert tmp c fs)) ≡ lookup j fs
  unfolding removed
  removed-old c j h =
      ground
        (arith, lookup-delete tmp j (insert tmp c fs), lookup-insert tmp j c fs, text_eq_iff tmp j)

  renamed_lem :
      (j : Text)
      → lookup tmp fs ≡ none
      → tmp ≢ path
      → lookup j (renamed tmp path (insert tmp content fs))
        ≡ (if text_eq path j then some content else lookup j fs)
  unfolding renamed removed
  renamed_lem j h k =
      ap (λ r. lookup j (moved tmp path (insert tmp content fs) r))
        (lookup-insert_self tmp content fs)
      ∙ ground (
        arith,
        lookup-insert path j content (delete tmp (insert tmp content fs)),
        removed-old content j h,
      )

  removed_absent :
      (q : Option Error) (s : Files) (j : Text)
      → lookup tmp s ≡ none
      → lookup j (removed q tmp s) ≡ lookup j s
  unfolding removed
  removed_absent none s j h = ground (arith, lookup-delete tmp j s, text_eq_iff tmp j)
  removed_absent (some e) s j h = refl

  renamed_absent :
      lookup tmp fs ≡ none
      → tmp ≢ path
      → lookup tmp (renamed tmp path (insert tmp content fs)) ≡ none
  renamed_absent h k = ground (arith, renamed_lem tmp h k, text_eq_iff path tmp)

  renamed-IsOldOrNew :
      (j : Text)
      → lookup tmp fs ≡ none
      → tmp ≢ path
      → IsOldOrNew fs path content j (renamed tmp path (insert tmp content fs))
  renamed-IsOldOrNew j h k = elim (Bool-cases (text_eq path j)) [
    | inl t ↦ inr (text_eq-eq path j t, renamed_lem j h k ∙ rw t)
    | inr f ↦ inl (renamed_lem j h k ∙ rw f)
  ]

  module _ (o : Answers) (key : Text) (absent : lookup tmp fs ≡ none) (apart : tmp ≢ path) where
    cleaned-IsSafe :
        (seen : List Files) (c : Bytes) (e : Error)
        → ((j : Text) → tmp ≢ j → All (IsOldOrNew fs path content j) seen)
        → IsSafe fs o.remove path content tmp (cleaned o.remove tmp seen (insert tmp c fs) (some e))
    unfolding cleaned
    cleaned-IsSafe seen c e h = record {
      seen = h;
      wrote = λ q. absurd (ground arith);
      kept = λ e' q m j.
          ap (λ r. lookup j (removed r tmp (insert tmp c fs))) m ∙ removed-old c j absent;
    }

    put_renamed-IsSafe :
        (seen : List Files) (rename : Option Error)
        → ((j : Text) → tmp ≢ j → All (IsOldOrNew fs path content j) seen)
        → IsSafe fs o.remove path content tmp
            (put_renamed o key path tmp seen (insert tmp content fs) rename)
    unfolding put_renamed cleaned
    put_renamed-IsSafe seen (some e) h =
        cleaned-IsSafe seen content (put_error key (codes ": rename: ") e) h
    put_renamed-IsSafe seen none h = record {
      seen = λ j k.
          All-append (IsOldOrNew fs path content j) seen _ (h j k)
            (renamed-IsOldOrNew j absent apart, tt);
      wrote = λ q j.
          removed_absent o.remove (renamed tmp path (insert tmp content fs)) j
            (renamed_absent absent apart)
          ∙ renamed_lem j absent apart;
      kept = λ e q m j. absurd (ground arith);
    }

    put_closed-IsSafe :
        (seen : List Files) (close : Option Error)
        → ((j : Text) → tmp ≢ j → All (IsOldOrNew fs path content j) seen)
        → IsSafe fs o.remove path content tmp
            (put_closed o key path tmp seen (insert tmp content fs) close)
    unfolding put_closed
    put_closed-IsSafe seen (some e) h =
        cleaned-IsSafe seen content (put_error key (codes ": close: ") e) h
    put_closed-IsSafe seen none h = put_renamed-IsSafe seen o.rename h

    pub put_copied-IsSafe :
        (copy : Option Error)
        → IsSafe fs o.remove path content tmp (put_copied o key path content tmp fs copy)
    unfolding put_copied
    put_copied-IsSafe (some e) =
        cleaned-IsSafe (copying tmp content fs o.written) (take o.written content)
          (put_error key (codes ": write: ") e) (λ j h. copying-old j h o.written)
    put_copied-IsSafe none =
        put_closed-IsSafe (copying tmp content fs (length content)) o.close
          (λ j h. copying-old j h (length content))

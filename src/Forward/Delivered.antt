-- ===== src/Forward/Delivered.antt =====
-- What reaches the channel that a forwarding goroutine writes.
use image_forge.Prelude.{
  ◌≡◌, refl, sym, ◌∙◌, ◌⊎◌, inl, inr, Bool, true, false, Option, none, some, List, [], ◌∷◌, ◌++◌,
  map, arith, length,
}
use mathlib.Core.List.{append_assoc, append-nil, map-append}
use image_forge.Forward.{
  Relay, relay, Outside, arrive, close, cancel, Inside, receive, send, give_up, exhaust, leave,
  Reach, here, outside, inside,
}

abbrev held_list : {A : Type 0} → Option A → List A
held_list none = []
held_list (some a) = a ∷ []

module _ {A B : Type 0} where
  pub record IsForwarded (f : A → B) (s : Relay A B) : Type 0 where
    pub handed : List A
    pub out_handed : s.out ≡ map f handed
    pub split : s.arrived ≡ handed ++ s.dropped ++ held_list s.held ++ s.source
    -- one delivery at most is given up, and only by a goroutine that was canceled
    pub one_dropped :
        (s.dropped ≡ [])
        ⊎ ((length s.dropped ≡ 1) × (s.held ≡ none) × (s.canceled ≡ true) × (s.stopped ≡ true))
    pub all_sent :
        (s.stopped ≡ false) ⊎ (s.canceled ≡ true) ⊎ ((s.closed ≡ true) × (s.arrived ≡ handed))

  Outside-IsForwarded :
      (f : A → B) {s t : Relay A B} → Outside s t → IsForwarded f s → IsForwarded f t
  Outside-IsForwarded f {s} (arrive a c) v = record {
    handed = v.handed;
    out_handed = v.out_handed;
    split = rw v.split (simp append_assoc);
    one_dropped = v.one_dropped;
    all_sent = ground (arith, v.all_sent, c);
  }
  Outside-IsForwarded f {s} close v = record {
    handed = v.handed;
    out_handed = v.out_handed;
    split = v.split;
    one_dropped = v.one_dropped;
    all_sent = elim v.all_sent [
      | inl p ↦ inl p
      | inr (inl c) ↦ inr (inl c)
      | inr (inr (_, e)) ↦ inr (inr (refl, e))
    ];
  }
  Outside-IsForwarded f {s} cancel v = record {
    handed = v.handed;
    out_handed = v.out_handed;
    split = v.split;
    one_dropped = elim v.one_dropped [ inl e ↦ inl e | inr (l, h, _, p) ↦ inr (l, h, refl, p) ];
    all_sent = inr (inl refl);
  }

  -- A goroutine that runs has dropped nothing.
  running-dropped :
      (f : A → B) (s : Relay A B) → s.stopped ≡ false → IsForwarded f s → s.dropped ≡ []
  running-dropped f s p v = elim v.one_dropped [
    | inl e ↦ e
    | inr (_, _, _, q) ↦ ground (arith, p, q)
  ]

  -- Nothing is dropped where nothing is held.
  split-at :
      (f : A → B) (s : Relay A B) (v : IsForwarded f s)
      → s.stopped ≡ false
      → (h : Option A) → s.held ≡ h
      → s.arrived ≡ v.handed ++ held_list h ++ s.source
  split-at f s v p h e = v.split ∙ rw (running-dropped f s p v, e, append-nil) refl

  Inside-IsForwarded :
      (f : A → B) (watches : Bool) {s t : Relay A B}
      → Inside f watches s t
      → IsForwarded f s
      → IsForwarded f t
  Inside-IsForwarded f watches {s} (receive a rest p n e) v = record {
    handed = v.handed;
    out_handed = v.out_handed;
    split =
        split-at f s v p none n ∙ rw (running-dropped f s p v, e, append-nil) (simp append_assoc);
    one_dropped = inl (running-dropped f s p v);
    all_sent = inl p;
  }
  Inside-IsForwarded f watches {s} (send a p h) v = record {
    handed = v.handed ++ a ∷ [];
    out_handed = rw v.out_handed (sym (map-append f v.handed (a ∷ [])));
    split =
        split-at f s v p (some a) h ∙ rw (running-dropped f s p v, append-nil) (simp append_assoc);
    one_dropped = inl (running-dropped f s p v);
    all_sent = inl p;
  }
  Inside-IsForwarded f watches {s} (give_up a p h c) v = record {
    handed = v.handed;
    out_handed = v.out_handed;
    split = split-at f s v p (some a) h ∙ rw (running-dropped f s p v) (simp append_assoc);
    one_dropped = inr (rw (running-dropped f s p v) refl, refl, c, refl);
    all_sent = inr (inl c);
  }
  Inside-IsForwarded f watches {s} (exhaust p n e c) v = record {
    handed = v.handed;
    out_handed = v.out_handed;
    split = v.split;
    one_dropped = inl (running-dropped f s p v);
    all_sent = inr (inr (c, split-at f s v p none n ∙ rw e (simp append-nil)));
  }
  Inside-IsForwarded f watches {s} (leave w p n c) v = record {
    handed = v.handed;
    out_handed = v.out_handed;
    split = v.split;
    one_dropped = inl (running-dropped f s p v);
    all_sent = inr (inl c);
  }

  -- Whatever the queue and the caller do, a forwarding goroutine sends what arrives once each and in
  -- order. It gives up one delivery at most, and only after the caller has canceled; where it has
  -- returned and the caller has not canceled, the channel was closed and all of it has been sent.
  pub Reach-IsForwarded :
      (f : A → B) (watches : Bool) {t : Relay A B} → Reach f watches relay t → IsForwarded f t
  Reach-IsForwarded f watches here = record {
    handed = [];
    out_handed = refl;
    split = refl;
    one_dropped = inl refl;
    all_sent = inl refl;
  }
  Reach-IsForwarded f watches (outside r o) =
      Outside-IsForwarded f o (Reach-IsForwarded f watches r)
  Reach-IsForwarded f watches (inside r i) =
      Inside-IsForwarded f watches i (Reach-IsForwarded f watches r)

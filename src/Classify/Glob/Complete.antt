-- ===== src/Classify/Glob/Complete.antt =====
-- A text without the character `*` is accepted whenever the glob describes it. One with it need not
-- be: the glob_loop compares a star of the pattern with a star of the text before it reads it as a star.
use apg.Prelude.{
  ℕ, zero, suc, ◌-◌, ◌≡◌, ◌≢◌, ◌⊎◌, inl, inr, ◌↔◌, refl, true, false, ◌||◌, [], ◌∷◌, none, some,
  arith, ◌==◌, nat_eq, ==_iff, Bool-cases, is_empty, ap, subst, ◌∙◌,
}
use apg.Text.{Text}
use apg.Classify.Glob.{
  star, Saved, Round, next, skip_stars, retry, glob_loop, fuel, matches_glob,
  matches_glob-glob_loop,
}
use apg.Classify.Glob.Spec.{Matches, Single, done, one, leave, take}
use apg.Classify.Glob.Sound.{skip_stars-Matches, matches_glob_sound}

abbrev pub NoStar : Text → Type 0
NoStar [] = Unit
NoStar (d ∷ t) = (d ≢ star) × NoStar t

-- The star may stay where it is: greedy matching of the next pattern character loses nothing.
drop_one :
    {c d : ℕ} {p : Text} (t : Text)
    → c ≢ star
    → Matches (star ∷ c ∷ p) (d ∷ t)
    → Matches (star ∷ p) t
drop_one t n (one s m) = absurd (s.0 refl)
drop_one t n (leave _ (one s m)) = leave refl m
drop_one t n (leave _ (leave e m)) = absurd (n e)
drop_one t n (leave _ (take e m)) = absurd (n e)
drop_one [] n (take _ (leave _ (leave e m))) = absurd (n e)
drop_one (d ∷ t) n (take _ m) = take refl (drop_one t n m)

one_inv : {c d : ℕ} {p t : Text} → c ≢ star → Matches (c ∷ p) (d ∷ t) → Single c d × Matches p t
one_inv n (one s m) = (s, m)
one_inv n (leave e m) = absurd (n e)
one_inv n (take e m) = absurd (n e)

Matches-is_empty : (p : Text) → Matches p [] → is_empty (skip_stars p) ≡ true
unfolding skip_stars
Matches-is_empty [] m = refl
Matches-is_empty (c ∷ p) (leave e m) = rw ((==_iff c star).1 e) (Matches-is_empty p m)

one-skip_stars : (c : ℕ) (p : Text) → c ≢ star → skip_stars (c ∷ p) ≡ c ∷ p
unfolding skip_stars
one-skip_stars c p n = ground arith

leave-skip_stars : (c : ℕ) (p : Text) → c ≡ star → skip_stars (c ∷ p) ≡ skip_stars p
unfolding skip_stars
leave-skip_stars c p e = ground arith

widen : (p : Text) {t : Text} → Matches p t → Matches (star ∷ skip_stars p) t
unfolding skip_stars
widen [] m = leave refl m
widen (c ∷ p) (one s m) = rw (one-skip_stars c p s.0) (leave refl (one s m))
widen (c ∷ p) (leave e m) = rw (leave-skip_stars c p e) (widen p m)
widen (c ∷ p) (take e m) = take refl (widen (c ∷ p) m)

-- A run of stars is one star.
collapse : (p : Text) {t : Text} → Matches (star ∷ p) t → Matches (star ∷ skip_stars p) t
collapse p (one s m) = absurd (s.0 refl)
collapse p (leave _ m) = widen p m
collapse p (take _ m) = take refl (collapse p m)

skip_or_take :
    (p : Text) {t : Text} → Matches p t → Matches (skip_stars p) t ⊎ Matches (star ∷ p) (next t)
unfolding skip_stars
skip_or_take [] m = inl m
skip_or_take (c ∷ p) (one s m) = inl (rw (one-skip_stars c p s.0) (one s m))
skip_or_take (c ∷ p) (leave e m) = elim (skip_or_take p m) [
  | inl s ↦ inl (rw (leave-skip_stars c p e) s)
  | inr k ↦ inr (leave refl (rw e k))
]
skip_or_take (c ∷ p) (take e m) = inr (leave refl m)

must_take :
    (p : Text) {t : Text}
    → Matches (star ∷ p) t
    → ¬ Matches (skip_stars p) t
    → Matches (star ∷ p) (next t)
must_take p (one s m) n = absurd (s.0 refl)
must_take p (leave _ m) n = elim (skip_or_take p m) [ inl s ↦ absurd (n s) | inr k ↦ k ]
must_take p (take _ m) n = m

star_at_end : (p : Text) → Matches (star ∷ p) [] → Matches p []
star_at_end p (leave _ m) = m

refuse_end : (p : Text) → Matches (star ∷ p) [] → some (is_empty (skip_stars p)) ≢ some false
refuse_end p m h = cc (h, Matches-is_empty p (star_at_end p m))

two_stars : (p : Text) {t : Text} → Matches (star ∷ star ∷ p) t → Matches (star ∷ p) t
two_stars p (one s m) = absurd (s.0 refl)
two_stars p (leave _ m) = m
two_stars p (take _ m) = take refl (two_stars p m)

mismatch :
    {c d : ℕ} {p t : Text}
    → (c == b'?' || c == d) ≡ false
    → (c == star) ≡ false
    → ¬ Matches (c ∷ p) (d ∷ t)
mismatch e n m = let s = (one_inv (ground arith) m).0 in ground arith

-- `G` is the question asked at the start: what is known of it while the glob_loop runs.
module _ (G : Type 0) where
  abbrev Kept : Text → Text → Saved → Type 0
  Kept p t none = G → Matches p t
  Kept p t (some (sp, st)) =
      (G → Matches (star ∷ sp) st) × (Matches (skip_stars sp) st → Matches p t) × NoStar st

  record Inv (p t : Text) (saved : Saved) : Type 0 where
    later : G → Matches (star ∷ p) t
    kept : Kept p t saved
    plain : NoStar t

  Inv-restart :
      (sp st : Text) → (G → Matches (star ∷ sp) st) → NoStar st → Inv sp st (some (sp, st))
  Inv-restart sp st g n = record { later = g; kept = (g, skip_stars-Matches sp, n); plain = n }

  NoStar-next : (t : Text) → NoStar t → NoStar (next t)
  NoStar-next [] n = tt
  NoStar-next (d ∷ t) n = n.1

  retry_complete :
      (p t : Text) (saved : Saved) (again : Round)
      → ((q u : Text) (s : Saved) → Inv q u s → again q u s ≡ some false → ¬ G)
      → Inv p t saved
      → ¬ Matches p t
      → retry saved again ≡ some false
      → ¬ G
  unfolding retry
  retry_complete p t none again ih i n h = λ g. n (i.kept g)
  retry_complete p t (some (sp, st)) again ih i n h =
      let (g, down, plain) = i.kept in
      ih sp (next st) (some (sp, next st))
        (Inv-restart sp (next st) (λ q. must_take sp (g q) (λ m. n (down m)))
          (NoStar-next st plain))
        h

  Kept-one :
      (c d : ℕ) (p t : Text) (saved : Saved)
      → c ≢ star
      → Kept (c ∷ p) (d ∷ t) saved
      → Kept p t saved
  Kept-one c d p t none n k = λ g. (one_inv n (k g)).1
  Kept-one c d p t (some (sp, st)) n (g, down, plain) = (g, λ m. (one_inv n (down m)).1, plain)

  expand-Inv :
      {c d : ℕ} {p t : Text} {saved : Saved}
      → c ≡ star
      → Inv (c ∷ p) (d ∷ t) saved
      → Inv (skip_stars p) (d ∷ t) (some (p, d ∷ t))
  expand-Inv {c} {d} {p} {t} e i =
      let g : G → Matches (star ∷ p) (d ∷ t) =
        λ q. two_stars p (subst (λ x. Matches (star ∷ x ∷ p) (d ∷ t)) e (i.later q)) in
      record { later = λ q. collapse p (g q); kept = (g, λ m. m, i.plain); plain = i.plain }

  glob_loop_complete :
      (f : ℕ) (p t : Text) (saved : Saved)
      → Inv p t saved
      → glob_loop f p t saved ≡ some false
      → ¬ G
  unfolding glob_loop
  glob_loop_complete zero p t saved i h = cc
  glob_loop_complete (suc f) [] [] saved i h = λ g. refuse_end [] (i.later g) h
  glob_loop_complete (suc f) (c ∷ p) [] saved i h = λ g. refuse_end (c ∷ p) (i.later g) h
  glob_loop_complete (suc f) [] (d ∷ t) saved i h =
      retry_complete [] (d ∷ t) saved (glob_loop f) (glob_loop_complete f) i (λ m. elim m [ ]) h
  glob_loop_complete (suc f) (c ∷ p) (d ∷ t) saved i h = elim (Bool-cases (c == b'?' || c == d)) [
    | inl e ↦
        let n : c ≢ star = ground arith in
        glob_loop_complete f p t saved
          (record {
            later = λ g. drop_one t n (i.later g);
            kept = Kept-one c d p t saved n i.kept;
            plain = i.plain.1;
          })
          (rw e at h)
    | inr e ↦ elim (Bool-cases (c == star)) [
      | inl e' ↦
          glob_loop_complete f (skip_stars p) (d ∷ t) (some (p, d ∷ t))
            (expand-Inv ((==_iff c star).0 e') i) (rw (e, e') at h)
      | inr e' ↦
          retry_complete (c ∷ p) (d ∷ t) saved (glob_loop f) (glob_loop_complete f) i
            (λ m. mismatch e e' m) (rw (e, e') at h)
    ]
  ]

-- On a text without `*`, `matches_glob` answers true exactly if the glob describes the text.
pub matches_glob_iff :
    (pattern path : Text) → NoStar path → (matches_glob pattern path ≡ true) ↔ Matches pattern path
matches_glob_iff pattern path n = (matches_glob_sound pattern path, λ m. accepted m)
  where
    accepted : Matches pattern path → matches_glob pattern path ≡ true
    accepted m = elim (Bool-cases (matches_glob pattern path)) [
      | inl e ↦ e
      | inr e ↦ absurd (
          glob_loop_complete (Matches pattern path) (fuel pattern path) pattern path none
            (record { later = leave refl; kept = λ g. g; plain = n })
            (matches_glob-glob_loop pattern path ∙ ap some e) m)
    ]

refused :
    (f : ℕ) (d : ℕ) (t : Text)
    → glob_loop (suc (suc f)) (star ∷ []) (star ∷ d ∷ t) none ≡ some false
unfolding glob_loop retry
refused f d t = refl

any_run : (u : Text) → Matches (star ∷ []) u
any_run [] = leave refl done
any_run (c ∷ u) = take refl (any_run u)

-- A lone `*` describes every text, and yet the code refuses each text of two characters or more
-- that begins with `*`.
pub matches_glob-star :
    (u : Text) (d : ℕ) (t : Text)
    → Matches (star ∷ []) u × (matches_glob (star ∷ []) (star ∷ d ∷ t) ≡ false)
matches_glob-star u d t =
    let path = star ∷ d ∷ t in
    let k = fuel (star ∷ []) path - 2 in
    let e : fuel (star ∷ []) path ≡ suc (suc k) = omega arith in
    (any_run u, cc (refused k d t, e, matches_glob-glob_loop (star ∷ []) path))

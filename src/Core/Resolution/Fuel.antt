-- ===== src/Core/Resolution/Fuel.antt =====
-- The aliases that a resolution follows are provided once each, so that their number bounds it.
use neemata.Common.{
  ℕ, zero, suc, ◌+◌, ◌≤◌, ◌<◌, ◌≡◌, ◌≢◌, refl, ap, ◌∙◌, Bool, true, false, Option, none, some, List,
  [], ◌∷◌, ◌++◌, ◌==◌, mem, mem-append, unseen, unseen-le, unseen-lt, map, length, arith,
  Bool-cases, Option-cases, inl, inr, if_intro,
}
use neemata.Core.Injectables.{Kind, lazy, factory, value, Injectable, id_of, kind_of}
use neemata.Core.Resolution.{
  provided, alias, Container, Decision, refused, create, out_of_fuel, Request, get, refuses_request,
  follow, value_of, delegates, satisfies, is_transient, by_kind, or_running, or_cached, own,
  resolve_injectable,
}

abbrev pub tokens : {A : Type 0} → List (ℕ × A) → List ℕ
tokens = map (λ e. e.0)

-- What the containers provide.
abbrev pub provided_by : List Container → List ℕ
provided_by [] = []
provided_by (c ∷ cs) = tokens c.provisions ++ provided_by cs

abbrev is_out : Decision → Bool
is_out out_of_fuel = true
is_out other = false

unseen-append : (seen xs ys : List ℕ) → unseen seen (xs ++ ys) ≡ unseen seen xs + unseen seen ys
unseen-append seen [] ys = omega arith
unseen-append seen (x ∷ xs) ys = omega (arith, unseen-append seen xs ys)

get-mem :
    {A : Type 0} (k : ℕ) (m : List (ℕ × A)) {a : A} → get k m ≡ some a → mem k (tokens m) ≡ true
get-mem k [] h = ground (arith, h)
get-mem k ((j, b) ∷ rest) {a} h =
    if_intro (λ o. o ≡ some a → mem k (j ∷ tokens rest) ≡ true) (j == k) (some b) (get k rest)
      (λ e _. ground (arith, e)) (λ ne h'. ground (arith, ne, get-mem k rest h')) h

by_kind-ends :
    (k : Kind) (optional : Bool) (level : ℕ) (i : Injectable) (c : Container)
    → is_out (by_kind k optional level i c) ≡ false
by_kind-ends lazy optional level i c = ground arith
by_kind-ends factory optional level i c =
    if_intro (λ d. is_out d ≡ false) (satisfies i c) (create level i) (refused _) (λ _. refl)
      (λ _. refl)
by_kind-ends (value v) optional level i c = refl

or_running-ends :
    (o : Option ℕ) (optional : Bool) (level : ℕ) (i : Injectable) (c : Container)
    → is_out (or_running o optional level i c) ≡ false
or_running-ends none optional level i c = by_kind-ends (kind_of i) optional level i c
or_running-ends (some p) optional level i c = refl

or_cached-ends :
    (o : Option ℕ) (optional : Bool) (level : ℕ) (i : Injectable) (c : Container)
    → is_out (or_cached o optional level i c) ≡ false
or_cached-ends none optional level i c = or_running-ends _ optional level i c
or_cached-ends (some p) optional level i c = refl

own-ends :
    (optional : Bool) (level : ℕ) (i : Injectable) (c : Container)
    → is_out (own optional level i c) ≡ false
own-ends optional level i c =
    if_intro (λ d. is_out d ≡ false) (is_transient i) (by_kind (kind_of i) optional level i c)
      (or_cached (get (id_of i) c.instances) optional level i c)
      (λ _. by_kind-ends (kind_of i) optional level i c) (λ _. or_cached-ends _ optional level i c)

not_circular :
    (r : Request) (i : Injectable) (c : Container)
    → refuses_request r i c ≡ none
    → mem (id_of i) r.chain ≡ false
not_circular r i c h = ground (arith, h)

-- Following an alias leaves fewer to follow.
fewer :
    (r : Request) (i : Injectable) (xs : List ℕ)
    → mem (id_of i) r.chain ≡ false
    → mem (id_of i) xs ≡ true
    → unseen (follow r i).chain xs < unseen r.chain xs
fewer r i xs new h = omega (
  arith,
  unseen-lt r.chain xs (id_of i) h new,
  unseen-le (id_of i ∷ r.chain) (follow r i).chain xs
      (λ j k. mem-append j r.chain (id_of i ∷ []) ∙ ground (arith, k)),
)

-- A container decides, if the target of an alias and the parent do.
step-ends :
    (fuel : ℕ) (r : Request) (i : Injectable) (c : Container) (cs : List Container) (level : ℕ)
    → ((target : Injectable)
        → refuses_request r i c ≡ none
        → get (id_of i) c.provisions ≡ some (alias target)
        → is_out (resolve_injectable fuel (follow r i) target (c ∷ cs) level) ≡ false)
    → (delegates i c cs ≡ true → is_out (resolve_injectable (suc fuel) r i cs (suc level)) ≡ false)
    → is_out (resolve_injectable (suc fuel) r i (c ∷ cs) level) ≡ false
unfolding resolve_injectable
step-ends fuel r i c cs level aliased up = elim (Option-cases (refuses_request r i c)) [
  | inr (reason, e) ↦ rw (e, is_out) refl
  | inl e ↦
      rw (e, is_out)
        (elim (Option-cases (get (id_of i) c.provisions)) [
          | inr (provided v, e') ↦ rw (e', is_out) refl
          | inr (alias target, e') ↦ rw (e', is_out) (aliased target e e')
          | inl e' ↦
              rw (e', is_out)
                (elim (Option-cases (value_of (kind_of i))) [
                  | inr (v, e'') ↦ rw (e'', is_out) refl
                  | inl e'' ↦
                      rw (e'', is_out)
                        (elim (Bool-cases (delegates i c cs)) [
                          | inl h ↦ rw (h, is_out) (up h)
                          | inr stays ↦ rw (stays, is_out) (own-ends r.optional level i c)
                        ])
                ])
        ])
]

alias-fewer :
    (fuel : ℕ) (r : Request) (i : Injectable) (c : Container) (cs : List Container)
    {target : Injectable}
    → unseen r.chain (provided_by (c ∷ cs)) < suc fuel
    → refuses_request r i c ≡ none
    → get (id_of i) c.provisions ≡ some (alias target)
    → unseen (follow r i).chain (provided_by (c ∷ cs)) < fuel
alias-fewer fuel r i c cs lt e e' = omega (
  arith,
  fewer r i (provided_by (c ∷ cs)) (not_circular r i c e) (
      mem-append (id_of i) (tokens c.provisions) (provided_by cs)
      ∙ ground (arith, get-mem (id_of i) c.provisions e')),
)

resolve-ends :
    (fuel : ℕ) (r : Request) (i : Injectable) (c : Container) (cs : List Container) (level : ℕ)
    → unseen r.chain (provided_by (c ∷ cs)) < fuel
    → is_out (resolve_injectable fuel r i (c ∷ cs) level) ≡ false
resolve-ends zero r i c cs level lt = absurd (omega arith)
resolve-ends (suc fuel) r i c [] level lt =
    step-ends fuel r i c [] level
      (λ target e e'.
        resolve-ends fuel (follow r i) target c [] level (alias-fewer fuel r i c [] lt e e'))
      (λ h. absurd (ground (arith, h)))
resolve-ends (suc fuel) r i c (p ∷ ps) level lt =
    step-ends fuel r i c (p ∷ ps) level
      (λ target e e'.
        resolve-ends fuel (follow r i) target c (p ∷ ps) level
          (alias-fewer fuel r i c (p ∷ ps) lt e e'))
      (λ h.
        resolve-ends (suc fuel) r i p ps (suc level)
          (omega (arith, unseen-append r.chain (tokens c.provisions) (provided_by (p ∷ ps)))))

unseen-le_all : (seen xs : List ℕ) → unseen seen xs ≤ length xs
unseen-le_all seen [] = omega arith
unseen-le_all seen (x ∷ xs) = ground (arith, unseen-le_all seen xs)

-- A resolution in a container always decides: one round more than the containers together provide
-- injectables is enough, whatever the request and however the aliases point to one another.
pub resolve-decides :
    (r : Request) (i : Injectable) (c : Container) (cs : List Container)
    → resolve_injectable (suc (length (provided_by (c ∷ cs)))) r i (c ∷ cs) 0 ≢ out_of_fuel
resolve-decides r i c cs h = absurd (
    ground (
      arith,
      ap is_out h,
      resolve-ends (suc (length (provided_by (c ∷ cs)))) r i c cs 0
          (omega (arith, unseen-le_all r.chain (provided_by (c ∷ cs)))),
    ))

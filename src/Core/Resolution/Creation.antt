-- ===== src/Core/Resolution/Creation.antt =====
-- Where a resolution creates an instance.
use neemata.Common.{
  ℕ, zero, suc, ◌+◌, ◌≡◌, refl, subst, Bool, true, false, not, ◌&&◌, ◌||◌, Option, none, some, List,
  [], ◌∷◌, drop, arith, Bool-cases, Option-cases, inl, inr, if_intro,
}
use neemata.Core.Injectables.{Kind, lazy, factory, value, Injectable, id_of, kind_of}
use neemata.Core.Resolution.{
  provided, alias, Container, Decision, refused, resolved, pending, undefined, create, out_of_fuel,
  Request, get, has, contains, satisfies, is_transient, delegates, by_kind, or_running, or_cached,
  own, refuses_request, follow, value_of, resolve_injectable,
}

-- The first container may hold the injectable and its parent would not take it, and for one that is
-- shared neither it nor an ancestor provides it, has an instance of it or is resolving it.
abbrev pub may_create : Injectable → List Container → Bool
may_create t [] = false
may_create t (c ∷ parents) =
    satisfies t c
    && (not (delegates t c parents) && (is_transient t || not (contains (id_of t) (c ∷ parents))))

-- What the decision says if it is to create.
abbrev Creates : List Container → ℕ → Decision → Type 0
Creates cs level (create n t) = (k : ℕ) × (n ≡ level + k) × (may_create t (drop k cs) ≡ true)
Creates cs level (refused reason) = Unit
Creates cs level (resolved v) = Unit
Creates cs level (pending p) = Unit
Creates cs level undefined = Unit
Creates cs level out_of_fuel = Unit

get-has : {A : Type 0} (k : ℕ) (m : List (ℕ × A)) → get k m ≡ none → has k m ≡ false
get-has k [] h = refl
get-has k ((j, a) ∷ rest) h = ground (arith, h, get-has k rest)

by_kind-Creates :
    (k : Kind) (optional : Bool) (level : ℕ) (i : Injectable) (c : Container)
    (parents : List Container)
    → (satisfies i c ≡ true → may_create i (c ∷ parents) ≡ true)
    → Creates (c ∷ parents) level (by_kind k optional level i c)
by_kind-Creates lazy optional level i c parents may =
    if_intro (Creates (c ∷ parents) level) optional undefined (refused _) (λ _. tt) (λ _. tt)
by_kind-Creates factory optional level i c parents may =
    if_intro (Creates (c ∷ parents) level) (satisfies i c) (create level i) (refused _)
      (λ h. (0, omega arith, may h)) (λ _. tt)
by_kind-Creates (value v) optional level i c parents may = tt

unclaimed :
    (i : Injectable) (c : Container) (parents : List Container)
    → is_transient i ≡ false
    → delegates i c parents ≡ false
    → contains (id_of i) parents ≡ false
unclaimed i c [] t h = refl
unclaimed i c (p ∷ ps) t h = ground (arith, t, h)

or_running-Creates :
    (o : Option ℕ) (optional : Bool) (level : ℕ) (i : Injectable) (c : Container)
    (parents : List Container)
    → get (id_of i) c.resolving ≡ o
    → (o ≡ none → satisfies i c ≡ true → may_create i (c ∷ parents) ≡ true)
    → Creates (c ∷ parents) level (or_running o optional level i c)
or_running-Creates none optional level i c parents e may =
    by_kind-Creates (kind_of i) optional level i c parents (may refl)
or_running-Creates (some p) optional level i c parents e may = tt

or_cached-Creates :
    (o : Option ℕ) (optional : Bool) (level : ℕ) (i : Injectable) (c : Container)
    (parents : List Container)
    → get (id_of i) c.instances ≡ o
    → (o ≡ none
        → get (id_of i) c.resolving ≡ none
        → satisfies i c ≡ true
        → may_create i (c ∷ parents) ≡ true)
    → Creates (c ∷ parents) level (or_cached o optional level i c)
or_cached-Creates none optional level i c parents e may =
    or_running-Creates (get (id_of i) c.resolving) optional level i c parents refl (may refl)
or_cached-Creates (some v) optional level i c parents e may = tt

own-Creates :
    (optional : Bool) (level : ℕ) (i : Injectable) (c : Container) (parents : List Container)
    → get (id_of i) c.provisions ≡ none
    → delegates i c parents ≡ false
    → Creates (c ∷ parents) level (own optional level i c)
own-Creates optional level i c parents absent_there stays = elim (Bool-cases (is_transient i)) [
  | inl t ↦
      rw t
        (by_kind-Creates (kind_of i) optional level i c parents (λ h. ground (arith, h, stays, t)))
  | inr t ↦ rw t (
      or_cached-Creates (get (id_of i) c.instances) optional level i c parents refl (λ e e' h.
        ground (
          arith,
          h,
          stays,
          unclaimed i c parents t stays,
          get-has (id_of i) c.provisions absent_there,
          get-has (id_of i) c.instances e,
          get-has (id_of i) c.resolving e',
        )))
]

-- A decision for an ancestor is one for the container.
higher :
    (c : Container) (parents : List Container) (level : ℕ) (d : Decision)
    → Creates parents (suc level) d
    → Creates (c ∷ parents) level d
higher c parents level (create n t) (k, e, m) = (suc k, omega arith, m)
higher c parents level (refused reason) h = tt
higher c parents level (resolved v) h = tt
higher c parents level (pending p) h = tt
higher c parents level undefined h = tt
higher c parents level out_of_fuel h = tt

resolve-Creates :
    (fuel : ℕ) (r : Request) (i : Injectable) (cs : List Container) (level : ℕ)
    → Creates cs level (resolve_injectable fuel r i cs level)
unfolding resolve_injectable
resolve-Creates fuel r i [] level = tt
resolve-Creates zero r i (c ∷ parents) level = tt
resolve-Creates (suc fuel) r i (c ∷ parents) level = elim (Option-cases (refuses_request r i c)) [
  | inr (reason, e) ↦ rw (e, Creates) tt
  | inl e ↦
      rw (e, Creates)
        (elim (Option-cases (get (id_of i) c.provisions)) [
          | inr (provided v, e') ↦ rw (e', Creates) tt
          | inr (alias target, e') ↦
              rw (e', Creates) (resolve-Creates fuel (follow r i) target (c ∷ parents) level)
          | inl e' ↦
              rw (e', Creates)
                (elim (Option-cases (value_of (kind_of i))) [
                  | inr (v, e'') ↦ rw (e'', Creates) tt
                  | inl e'' ↦
                      rw (e'', Creates)
                        (elim (Bool-cases (delegates i c parents)) [
                          | inl up ↦
                              rw (up, Creates)
                                (higher c parents level
                                  (resolve_injectable (suc fuel) r i parents (suc level))
                                  (resolve-Creates (suc fuel) r i parents (suc level)))
                          | inr stays ↦
                              rw (stays, Creates)
                                (own-Creates r.optional level i c parents e' stays)
                        ])
                ])
        ])
]

-- If a resolution decides to create an instance of `t` in the container `n` ancestors up, then that
-- container is strict enough for `t` and would not delegate it to its parent, and unless `t` is
-- transient neither it nor an ancestor of it provides `t`, has an instance of `t` or is resolving `t`.
pub create-may_create :
    (fuel : ℕ) (r : Request) (i : Injectable) (cs : List Container) (n : ℕ) (t : Injectable)
    → resolve_injectable fuel r i cs 0 ≡ create n t
    → may_create t (drop n cs) ≡ true
create-may_create fuel r i cs n t e = found (subst (Creates cs 0) e (resolve-Creates fuel r i cs 0))
  where
    found : Creates cs 0 (create n t) → may_create t (drop n cs) ≡ true
    found (k, same, m) = subst (λ j. may_create t (drop j cs) ≡ true) (omega (arith, same)) m

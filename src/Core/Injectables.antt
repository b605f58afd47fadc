-- ===== src/Core/Injectables.antt =====
-- packages/core/src/injectables.ts and enums.ts: scopes, and the scope that an injectable needs. An
-- injectable is the tree of what it depends on, frozen at its declaration, with a number for its
-- identity; the cache of effective scopes is left out.
use neemata.Common.{
  ℕ, ◌≤◌, ◌≡◌, refl, Bool, not, ◌&&◌, ltb, leb, if◌then◌else◌, arith, Outcome, ok, err, if_intro,
  inl, inr, sym, ◌∙◌, ◌⊎◌,
}

-- The scopes that are a position, strictest last.
pub data Position : Type 0 where
  global connection call : Position

pub data Scope : Type 0 where
  at : Position → Scope
  transient : Scope

pub data Kind : Type 0 where
  lazy factory : Kind
  value : (v : ℕ) → Kind

mutual
  pub data Injectable : Type 0 where
    injectable : (id : ℕ) → Scope → Kind → Dependencies → Injectable

  pub data Dependencies : Type 0 where
    nothing : Dependencies
    depends : (optional : Bool) → Injectable → Dependencies → Dependencies

-- `ScopeOrder`.
abbrev pub scope_order : Position → ℕ
scope_order global = 1
scope_order connection = 2
scope_order call = 3

-- `compareScope` with `>`, and with `<=`.
abbrev pub stricter : Position → Position → Bool
stricter a b = ltb (scope_order b) (scope_order a)

abbrev pub no_stricter : Position → Position → Bool
no_stricter a b = leb (scope_order a) (scope_order b)

abbrev pub id_of : Injectable → ℕ
id_of (injectable id scope kind deps) = id

abbrev pub scope_of : Injectable → Scope
scope_of (injectable id scope kind deps) = scope

abbrev pub kind_of : Injectable → Kind
kind_of (injectable id scope kind deps) = kind

abbrev pub position_of : Scope → Position
position_of (at p) = p
position_of transient = global

abbrev pub strictest_of : Position → Position → Position
strictest_of scope dependency = if stricter dependency scope then dependency else scope

-- `getEffectiveInjectableScope`, and its loop.
unfoldable mutual
  pub effective_scope : Injectable → Position
  effective_scope (injectable id scope kind deps) = strictest (position_of scope) deps

  pub strictest : Position → Dependencies → Position
  strictest scope nothing = scope
  strictest scope (depends optional i rest) =
      strictest (strictest_of scope (effective_scope i)) rest

-- `resolveInjectableScope`; none is the error of a scope that the dependencies do not allow.
abbrev checked : Bool → Position → Position → Outcome ℕ Scope
checked is_default own actual =
    if not is_default && stricter actual own then err (scope_order actual) else ok (at actual)

abbrev resolved_scope : Bool → Scope → Position → Outcome ℕ Scope
resolved_scope is_default transient actual = ok transient
resolved_scope is_default (at own) actual = checked is_default own actual

unfoldable pub resolve_injectable_scope : Bool → Injectable → Outcome ℕ Scope
unfolding effective_scope
resolve_injectable_scope is_default i = resolved_scope is_default (scope_of i) (effective_scope i)

-- An injectable depends on another, at any depth.
mutual
  pub data Needs : Injectable → Injectable → Type 0 where
    itself : (i : Injectable) → Needs i i
    through :
        {id : ℕ} {scope : Scope} {kind : Kind} {deps : Dependencies} {j : Injectable}
        → Among deps j
        → Needs (injectable id scope kind deps) j

  pub data Among : Dependencies → Injectable → Type 0 where
    here :
        {optional : Bool} {i j : Injectable} {rest : Dependencies}
        → Needs i j
        → Among (depends optional i rest) j
    there :
        {optional : Bool} {i j : Injectable} {rest : Dependencies}
        → Among rest j
        → Among (depends optional i rest) j

strictest_of-le :
    (a b : Position)
    → (scope_order a ≤ scope_order (strictest_of a b))
      × (scope_order b ≤ scope_order (strictest_of a b))
strictest_of-le a b = ground arith

strictest-le : (a : Position) (deps : Dependencies) → scope_order a ≤ scope_order (strictest a deps)
unfolding strictest
strictest-le a nothing = omega arith
strictest-le a (depends optional i rest) = omega (
  arith,
  strictest-le (strictest_of a (effective_scope i)) rest,
  (strictest_of-le a (effective_scope i)).0,
)

mutual
  unfolding effective_scope

  Needs-le :
      {i j : Injectable}
      → Needs i j
      → scope_order (effective_scope j) ≤ scope_order (effective_scope i)
  Needs-le (itself i) = omega arith
  Needs-le (through {scope = scope} a) = Among-le (position_of scope) a

  Among-le :
      {deps : Dependencies} {j : Injectable} (p : Position)
      → Among deps j
      → scope_order (effective_scope j) ≤ scope_order (strictest p deps)
  Among-le p (here {i = i} {rest = rest} n) = omega (
    arith,
    Needs-le n,
    strictest-le (strictest_of p (effective_scope i)) rest,
    (strictest_of-le p (effective_scope i)).1,
  )
  Among-le p (there {i = i} a) = Among-le (strictest_of p (effective_scope i)) a

own-le : (i : Injectable) → scope_order (position_of (scope_of i)) ≤ scope_order (effective_scope i)
unfolding effective_scope
own-le (injectable id scope kind deps) = strictest-le (position_of scope) deps

-- Where a scope comes from: the first one, or a dependency.
abbrev FromAmong : Position → Position → Dependencies → Type 0
FromAmong result p deps =
    (result ≡ p) ⊎ ((j : Injectable) × Among deps j × (position_of (scope_of j) ≡ result))

abbrev Attained : Injectable → Type 0
Attained i = (j : Injectable) × Needs i j × (position_of (scope_of j) ≡ effective_scope i)

strictest_of-cases : (a b : Position) → (strictest_of a b ≡ b) ⊎ (strictest_of a b ≡ a)
strictest_of-cases a b =
    if_intro (λ x. (x ≡ b) ⊎ (x ≡ a)) (stricter b a) b a (λ _. inl refl) (λ _. inr refl)

from_own :
    (id : ℕ) (scope : Scope) (kind : Kind) (deps : Dependencies)
    → FromAmong (strictest (position_of scope) deps) (position_of scope) deps
    → Attained (injectable id scope kind deps)
unfolding effective_scope
from_own id scope kind deps (inl e) =
    (injectable id scope kind deps, itself (injectable id scope kind deps), sym e)
from_own id scope kind deps (inr (j, a, e)) = (j, through a, e)

from_rest :
    (p : Position) (optional : Bool) (i : Injectable) (rest : Dependencies)
    → Attained i
    → (strictest_of p (effective_scope i) ≡ effective_scope i)
      ⊎ (strictest_of p (effective_scope i) ≡ p)
    → FromAmong
        (strictest (strictest_of p (effective_scope i)) rest)
        (strictest_of p (effective_scope i))
        rest
    → FromAmong (strictest (strictest_of p (effective_scope i)) rest) p (depends optional i rest)
from_rest p optional i rest (j, n, e) (inl theirs) (inl same) =
    inr (j, here n, e ∙ sym theirs ∙ sym same)
from_rest p optional i rest h (inr ours) (inl same) = inl (same ∙ ours)
from_rest p optional i rest h c (inr (j, a, e)) = inr (j, there a, e)

mutual
  unfolding effective_scope

  attained : (i : Injectable) → Attained i
  attained (injectable id scope kind deps) =
      from_own id scope kind deps (among-attained (position_of scope) deps)

  among-attained : (p : Position) (deps : Dependencies) → FromAmong (strictest p deps) p deps
  among-attained p nothing = inl refl
  among-attained p (depends optional i rest) =
      from_rest p optional i rest (attained i) (strictest_of-cases p (effective_scope i))
        (among-attained (strictest_of p (effective_scope i)) rest)

-- The effective scope is the strictest of the scopes of the injectable and of all that it depends on
-- at any depth, where a transient counts as global: none of them is stricter, and one has it.
pub effective_scope-max :
    (i : Injectable)
    → ((j : Injectable)
        → Needs i j
        → scope_order (position_of (scope_of j)) ≤ scope_order (effective_scope i))
      × ((j : Injectable) × Needs i j × (position_of (scope_of j) ≡ effective_scope i))
effective_scope-max i = (λ j n. omega (arith, own-le j, Needs-le n), attained i)

-- ===== src/Core/Resolution.antt =====
-- packages/core/src/container.ts: how a container resolves an injectable, up to the point where an
-- instance is created; the edge that it records for the disposal is not part of the decision. A
-- container stands with its ancestors, nearest first. Values, instances and
-- promises are numbers.
pub mod Creation
pub mod Fuel
use neemata.Common.{
  ℕ, zero, suc, ◌+◌, Bool, true, false, not, ◌&&◌, ◌||◌, Option, none, some, List, [], ◌∷◌, ◌++◌,
  ◌==◌, if◌then◌else◌, mem,
}
use neemata.Core.Injectables.{
  Position, Scope, at, transient, Kind, lazy, factory, value, Injectable, id_of, scope_of, kind_of,
  stricter, no_stricter, effective_scope,
}

-- `ProvisionEntry`.
pub data Entry : Type 0 where
  provided : (v : ℕ) → Entry
  alias : (target : Injectable) → Entry

-- `Container`, with its maps as lists of entries: the public instances and the promises of the
-- resolutions that run.
pub record Container : Type 0 where
  pub scope : Position
  pub provisions : List (ℕ × Entry)
  pub instances : List (ℕ × ℕ)
  pub resolving : List (ℕ × ℕ)
  pub disposing : Bool

pub data Refusal : Type 0 where
  disposed circular invalid_scope no_instance too_strict : Refusal

-- `create` is `createResolution` in the container that is so many ancestors up.
pub data Decision : Type 0 where
  refused : Refusal → Decision
  resolved : (v : ℕ) → Decision
  pending : (promise : ℕ) → Decision
  undefined : Decision
  create : (level : ℕ) → Injectable → Decision
  out_of_fuel : Decision

-- `ResolutionRequest`.
pub record Request : Type 0 where
  pub dependant : Option Injectable
  pub optional : Bool
  pub chain : List ℕ

abbrev pub get : {A : Type 0} → ℕ → List (ℕ × A) → Option A
get k [] = none
get k ((j, a) ∷ rest) = if j == k then some a else get k rest

abbrev pub has : {A : Type 0} → ℕ → List (ℕ × A) → Bool
has k [] = false
has k ((j, a) ∷ rest) = j == k || has k rest

-- `owns` and `contains`.
abbrev pub owns : ℕ → Container → Bool
owns k c = has k c.provisions || has k c.instances || has k c.resolving

abbrev pub contains : ℕ → List Container → Bool
contains k [] = false
contains k (c ∷ parents) = owns k c || contains k parents

-- `satisfies`.
abbrev pub satisfies : Injectable → Container → Bool
unfolding effective_scope
satisfies i c = no_stricter (effective_scope i) c.scope

abbrev pub is_transient : Injectable → Bool
is_transient i = transient_scope (scope_of i)
  where
    transient_scope : Scope → Bool
    transient_scope transient = true
    transient_scope (at p) = false

abbrev pub breaks_scope : Option Injectable → Injectable → Bool
unfolding effective_scope
breaks_scope none i = false
breaks_scope (some d) i = stricter (effective_scope i) (effective_scope d)

-- The container delegates to its parent.
abbrev pub delegates : Injectable → Container → List Container → Bool
delegates i c [] = false
delegates i c (p ∷ ps) =
    not (is_transient i)
    && (contains (id_of i) (p ∷ ps) || (satisfies i p && stricter c.scope p.scope))

abbrev pub by_kind : Kind → Bool → ℕ → Injectable → Container → Decision
by_kind lazy optional level i c = if optional then undefined else refused no_instance
by_kind factory optional level i c = if satisfies i c then create level i else refused too_strict
by_kind (value v) optional level i c = resolved v

abbrev pub or_running : Option ℕ → Bool → ℕ → Injectable → Container → Decision
or_running (some promise) optional level i c = pending promise
or_running none optional level i c = by_kind (kind_of i) optional level i c

abbrev pub or_cached : Option ℕ → Bool → ℕ → Injectable → Container → Decision
or_cached (some instance_of) optional level i c = resolved instance_of
or_cached none optional level i c = or_running (get (id_of i) c.resolving) optional level i c

-- The container owns the resolution.
abbrev pub own : Bool → ℕ → Injectable → Container → Decision
own optional level i c =
    if is_transient i
    then by_kind (kind_of i) optional level i c
    else or_cached (get (id_of i) c.instances) optional level i c

abbrev pub refuses_request : Request → Injectable → Container → Option Refusal
refuses_request r i c =
    if c.disposing
    then some disposed
    else (if mem (id_of i) r.chain
        then some circular
        else (if breaks_scope r.dependant i then some invalid_scope else none))

abbrev pub follow : Request → Injectable → Request
follow r i = record r { chain = r.chain ++ (id_of i ∷ []) }

abbrev pub value_of : Kind → Option ℕ
value_of (value v) = some v
value_of other = none

-- `resolveInjectable`, on fuel for the aliases that it follows; `level` counts the ancestors.
unfoldable pub resolve_injectable : ℕ → Request → Injectable → List Container → ℕ → Decision
resolve_injectable fuel r i [] level = out_of_fuel
resolve_injectable zero r i (c ∷ parents) level = out_of_fuel
resolve_injectable (suc fuel) r i (c ∷ parents) level = elim (refuses_request r i c) [
  | some reason ↦ refused reason
  | none ↦ elim (get (id_of i) c.provisions) [
    | some (provided v) ↦ resolved v
    | some (alias target) ↦ resolve_injectable fuel (follow r i) target (c ∷ parents) level
    | none ↦ elim (value_of (kind_of i)) [
      | some v ↦ resolved v
      | none ↦ elim (delegates i c parents) [
        | true ↦ resolve_injectable (suc fuel) r i parents (suc level)
        | false ↦ own r.optional level i c
      ]
    ]
  ]
]

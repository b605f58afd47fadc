-- ===== src/Core/Tests.antt =====
-- The disposal of a container with a logger, a database and a service, and the theorems at it.
use neemata.Common.{
  ℕ, suc, ◌-◌, ◌<◌, ◌≤◌, ◌≡◌, ◌≢◌, refl, true, false, none, some, List, [], ◌∷◌, mem, occurrences,
  arith, drop, length,
}
use neemata.Core.Injectables.{
  Position, global, connection, call, at, transient, lazy, factory, Injectable, injectable, nothing,
  depends, effective_scope, scope_order, position_of, scope_of, Needs, effective_scope-max,
}
use neemata.Core.Resolution.{
  Container, alias, Request, create, refused, invalid_scope, circular, out_of_fuel,
  resolve_injectable,
}
use neemata.Core.Resolution.Creation.{may_create, create-may_create}
use neemata.Core.Resolution.Fuel.{provided_by, resolve-decides}
use neemata.Core.Disposal.{Instances, keys, entries, dispose}
use neemata.Core.Disposal.Order.{dispose_once, dispose_dependants}
use neemata.Core.Disposal.Sorted.{precedes}

-- The logger 1 is used by the database 2 and the service 3, the database by the service; 4 left no
-- instance.
abbrev sample : Instances
sample = record {
  instances = (1, 10 ∷ []) ∷ (2, 20 ∷ []) ∷ (3, 30 ∷ 31 ∷ []) ∷ [];
  dependants = (1, 2 ∷ 3 ∷ 4 ∷ []) ∷ (2, 3 ∷ []) ∷ [];
}

service_first : (dispose sample).0 ≡ (3, 30 ∷ 31 ∷ []) ∷ (2, 20 ∷ []) ∷ (1, 10 ∷ []) ∷ []
unfolding dispose
service_first = refl

dispose_once_example : occurrences 2 (keys (dispose sample).0) ≡ 1
dispose_once_example = dispose_once sample 2

falls :
    (i d : ℕ)
    → mem d (entries i sample.dependants) ≡ true
    → mem d (keys sample.instances) ≡ true
    → mem i (keys sample.instances) ≡ true
    → 3 - d < 3 - i
falls i d e l own = ground (arith, e, l, own)

dispose_dependants_example : precedes 3 1 (keys (dispose sample).0) ≡ true
dispose_dependants_example = dispose_dependants sample (λ i. 3 - i) falls 1 3 refl refl refl

-- A logger for everyone, the database of a connection, and a service of a call.
abbrev logger : Injectable
logger = injectable 1 (at global) factory nothing

abbrev database : Injectable
database = injectable 2 (at connection) factory (depends false logger nothing)

abbrev service : Injectable
service = injectable 3 transient factory (depends false database (depends false logger nothing))

-- A token that the outermost container provides as the logger.
abbrev token : Injectable
token = injectable 5 (at global) lazy nothing

abbrev empty_container : Position → Container
empty_container scope = record {
  scope = scope;
  provisions = [];
  instances = [];
  resolving = [];
  disposing = false;
}

abbrev outermost : Container
outermost = record (empty_container global) { provisions = (5, alias logger) ∷ [] }

abbrev stack : List Container
stack = empty_container call ∷ empty_container connection ∷ outermost ∷ []

abbrev plain : Request
plain = record { dependant = none; optional = false; chain = [] }

service_scope : effective_scope service ≡ connection
unfolding effective_scope
service_scope = refl

-- The database is created for the connection, the token's target outermost, and the service, which
-- is transient, where it was asked for.
database_level : resolve_injectable 2 plain database stack 0 ≡ create 1 database
unfolding resolve_injectable effective_scope
database_level = refl

token_level : resolve_injectable 2 plain token stack 0 ≡ create 2 logger
unfolding resolve_injectable effective_scope
token_level = refl

service_level : resolve_injectable 2 plain service stack 0 ≡ create 0 service
unfolding resolve_injectable effective_scope
service_level = refl

-- A global injectable may not depend on the database.
stricter_dependency :
    resolve_injectable 2 (record plain { dependant = some logger }) database stack 0
    ≡ refused invalid_scope
unfolding resolve_injectable effective_scope
stricter_dependency = refl

-- Two aliases that point to each other.
round_trip :
    resolve_injectable 3 plain token
      (record outermost { provisions = (5, alias logger) ∷ (1, alias token) ∷ [] } ∷ [])
      0
    ≡ refused circular
unfolding resolve_injectable effective_scope
round_trip = refl

effective_scope-max_example :
    ((j : Injectable)
      → Needs service j
      → scope_order (position_of (scope_of j)) ≤ scope_order (effective_scope service))
    × ((j : Injectable) × Needs service j × (position_of (scope_of j) ≡ effective_scope service))
effective_scope-max_example = effective_scope-max service

create-may_create_example : may_create database (drop 1 stack) ≡ true
unfolding effective_scope
create-may_create_example = create-may_create 2 plain database stack 1 database database_level

resolve-decides_example :
    resolve_injectable (suc (length (provided_by stack))) plain token stack 0 ≢ out_of_fuel
resolve-decides_example =
    resolve-decides plain token (empty_container call) (empty_container connection ∷ outermost ∷ [])

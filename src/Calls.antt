-- ===== src/Calls.antt =====
-- packages/transports/src/neemata/ws/rpcs.ts: `RpcManager`, the calls that a connection has open. A
-- connection's id has no colon, so that the key `connection:call` is the pair of the two. The map is
-- the list of its entries in the order of their insertion; `aborted` is which controllers were
-- aborted, newest first.
mod Tests
use neemata.Common.{
  ℕ, ◌+◌, ◌≡◌, refl, ap, ◌∙◌, Bool, true, false, ◌&&◌, not, Option, none, some, List, [], ◌∷◌,
  arith, ◌==◌, if_intro, if◌then◌else◌, occurrences,
}

pub record Entry : Type 0 where
  pub connection : ℕ
  pub call : ℕ
  pub controller : ℕ

pub record Calls : Type 0 where
  pub rpcs : List Entry
  pub aborted : List ℕ

abbrev is_at : ℕ → ℕ → Entry → Bool
is_at connection call e = e.connection == connection && e.call == call

abbrev pub find_call : ℕ → ℕ → List Entry → Option ℕ
find_call connection call [] = none
find_call connection call (e ∷ es) =
    let rest = find_call connection call es in
    if is_at connection call e then some e.controller else rest

abbrev set_entry : ℕ → ℕ → ℕ → List Entry → List Entry
set_entry connection call controller [] =
    record { connection = connection; call = call; controller = controller } ∷ []
set_entry connection call controller (e ∷ es) =
    let rest = set_entry connection call controller es in
    if is_at connection call e then record e { controller = controller } ∷ es else e ∷ rest

abbrev delete_entry : ℕ → ℕ → List Entry → List Entry
delete_entry connection call [] = []
delete_entry connection call (e ∷ es) =
    let rest = delete_entry connection call es in if is_at connection call e then rest else e ∷ rest

pub set_call : ℕ → ℕ → ℕ → Calls → Calls
set_call connection call controller s = record s {
  rpcs = set_entry connection call controller s.rpcs;
}

pub get_call : ℕ → ℕ → Calls → Option ℕ
get_call connection call s = find_call connection call s.rpcs

abbrev pub owns : ℕ → Option ℕ → Bool
owns owner none = false
owns owner (some controller) = controller == owner

-- `owner && rpcs.get(key) !== owner`.
abbrev pub refuses : Option ℕ → Option ℕ → Bool
refuses none entry = false
refuses (some owner) entry = not (owns owner entry)

pub delete_call : ℕ → ℕ → Option ℕ → Calls → Calls
delete_call connection call owner s =
    if refuses owner (find_call connection call s.rpcs)
    then s
    else record s { rpcs = delete_entry connection call s.rpcs }

aborting : Option ℕ → Calls → Calls
aborting none s = s
aborting (some controller) s = record s { aborted = controller ∷ s.aborted }

pub abort_call : ℕ → ℕ → Calls → Calls
unfolding aborting
abort_call connection call s = aborting (find_call connection call s.rpcs) s

-- The entries that are left, and the controllers that were aborted, newest first.
closing : ℕ → List Entry → List ℕ → List Entry × List ℕ
closing connection [] aborted = ([], aborted)
closing connection (e ∷ es) aborted =
    let ours = e.connection == connection in
    let rest = closing connection es (if ours then e.controller ∷ aborted else aborted) in
    if ours then rest else (e ∷ rest.0, rest.1)

pub close_calls : ℕ → Calls → Calls
unfolding closing
close_calls connection s =
    let r = closing connection s.rpcs s.aborted in record s { rpcs = r.0; aborted = r.1 }

find-set_entry :
    (c k d j x : ℕ) (es : List Entry)
    → find_call d j (set_entry c k x es) ≡ (if d == c && j == k then some x else find_call d j es)
find-set_entry c k d j x [] = ground arith
find-set_entry c k d j x (e ∷ es) = ground (arith, find-set_entry c k d j x es)

find-delete_entry :
    (c k d j : ℕ) (es : List Entry)
    → find_call d j (delete_entry c k es) ≡ (if d == c && j == k then none else find_call d j es)
find-delete_entry c k d j [] = ground arith
find-delete_entry c k d j (e ∷ es) = ground (arith, find-delete_entry c k d j es)

find-closing :
    (c d j : ℕ) (es : List Entry) (aborted : List ℕ)
    → find_call d j (closing c es aborted).0 ≡ (if d == c then none else find_call d j es)
unfolding closing
find-closing c d j [] aborted = ground arith
find-closing c d j (e ∷ es) aborted =
    ground (arith, find-closing c d j es aborted, find-closing c d j es (e.controller ∷ aborted))

abort_call-rpcs : (o : Option ℕ) (s : Calls) → (aborting o s).rpcs ≡ s.rpcs
unfolding aborting
abort_call-rpcs none s = refl
abort_call-rpcs (some controller) s = refl

-- What a call's entry is after each operation: `set` puts the controller under its key; `delete`
-- removes the key, unless an owner is named that does not hold it; `abort` keeps the entry, so that
-- the id stays reserved; `close` removes the calls of its connection. No other entry changes.
pub operations-find_call :
    (c k d j controller : ℕ) (owner : Option ℕ) (s : Calls)
    → (get_call d j (set_call c k controller s)
        ≡ (if d == c && j == k then some controller else get_call d j s))
      × (get_call d j (delete_call c k owner s) ≡ (
          if d == c && j == k && not (refuses owner (get_call c k s))
          then none
          else get_call d j s))
      × (get_call d j (abort_call c k s) ≡ get_call d j s)
      × (get_call d j (close_calls c s) ≡ (if d == c then none else get_call d j s))
unfolding get_call set_call delete_call abort_call close_calls
operations-find_call c k d j controller owner s = (
  find-set_entry c k d j controller s.rpcs,
  if_intro
      (λ (t : Calls). find_call d j t.rpcs ≡ (
        if d == c && j == k && not (refuses owner (find_call c k s.rpcs))
        then none
        else find_call d j s.rpcs))
      (refuses owner (find_call c k s.rpcs)) s _ (λ r. ground (arith, r))
      (λ r. find-delete_entry c k d j s.rpcs ∙ ground (arith, r)),
  ap (find_call d j) (abort_call-rpcs (find_call c k s.rpcs) s),
  find-closing c d j s.rpcs s.aborted,
)

-- How many calls of a connection have a controller.
abbrev pub controls : ℕ → ℕ → List Entry → ℕ
controls c x [] = 0
controls c x (e ∷ es) = (if e.connection == c && e.controller == x then 1 else 0) + controls c x es

closing-aborts :
    (c x : ℕ) (es : List Entry) (aborted : List ℕ)
    → occurrences x (closing c es aborted).1 ≡ controls c x es + occurrences x aborted
unfolding closing
closing-aborts c x [] aborted = omega arith
closing-aborts c x (e ∷ es) aborted =
    ground (arith, closing-aborts c x es aborted, closing-aborts c x es (e.controller ∷ aborted))

-- Closing a connection aborts the controller of each of its calls once, and no other.
pub close_calls-aborts :
    (c x : ℕ) (s : Calls)
    → occurrences x (close_calls c s).aborted ≡ controls c x s.rpcs + occurrences x s.aborted
unfolding close_calls
close_calls-aborts c x s = closing-aborts c x s.rpcs s.aborted

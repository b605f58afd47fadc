-- ===== src/Streaming/Pump/Frames.antt =====
-- The frames of a download, and the invariant that the pump keeps.
use mathlib.Core.List.{append-nil, append_assoc}
use neemata.Common.{
  ℕ, ◌+◌, ◌≡◌, refl, sym, ap, ◌∙◌, ◌⊎◌, inl, inr, Bool, true, false, Option, none, some, List, [],
  ◌∷◌, ◌++◌, ◌==◌, Bool-cases, if◌then◌else◌, length,
}
use neemata.Wire.Bytes.{Bytes, flatten}
use neemata.Wire.Utf8.{Text}
use neemata.Streaming.Pump.{Frame, chunk, end, error, Pump, fail, finish}

-- The bytes of the frames, in order.
abbrev pub bytes_sent : List Frame → Bytes
bytes_sent [] = []
bytes_sent (chunk b ∷ fs) = b ++ bytes_sent fs
bytes_sent (end ∷ fs) = bytes_sent fs
bytes_sent (error e ∷ fs) = bytes_sent fs

abbrev pub held : Option Bytes → Bytes
held none = []
held (some b) = b

-- What the pump has in hand and the source has ready.
abbrev pub waiting : Pump → Bytes
waiting s = held s.buffered ++ flatten s.reads

abbrev pub AllChunks : List Frame → Type 0
AllChunks [] = Unit {0}
AllChunks (chunk b ∷ fs) = AllChunks fs
AllChunks (end ∷ fs) = ⊥
AllChunks (error e ∷ fs) = ⊥

-- Chunks, then at most one closing frame, and nothing behind it.
abbrev pub IsClosedOnce : List Frame → Type 0
IsClosedOnce [] = Unit {0}
IsClosedOnce (chunk b ∷ fs) = IsClosedOnce fs
IsClosedOnce (end ∷ fs) = fs ≡ []
IsClosedOnce (error e ∷ fs) = fs ≡ []

abbrev pub OnlyErrors : List Frame → Type 0
OnlyErrors [] = Unit {0}
OnlyErrors (chunk b ∷ fs) = ⊥
OnlyErrors (end ∷ fs) = ⊥
OnlyErrors (error e ∷ fs) = OnlyErrors fs

pub OnlyErrors-snoc : (fs : List Frame) (e : Text) → OnlyErrors fs → OnlyErrors (fs ++ error e ∷ [])
OnlyErrors-snoc [] e h = tt
OnlyErrors-snoc (chunk b ∷ fs) e h = absurd h
OnlyErrors-snoc (end ∷ fs) e h = absurd h
OnlyErrors-snoc (error r ∷ fs) e h = OnlyErrors-snoc fs e h

pub bytes_sent-snoc :
    (fs : List Frame) (f : Frame) → bytes_sent (fs ++ f ∷ []) ≡ bytes_sent fs ++ bytes_sent (f ∷ [])
bytes_sent-snoc [] f = refl
bytes_sent-snoc (chunk b ∷ fs) f =
    ap (λ l. b ++ l) (bytes_sent-snoc fs f) ∙ sym (append_assoc b (bytes_sent fs) _)
bytes_sent-snoc (end ∷ fs) f = bytes_sent-snoc fs f
bytes_sent-snoc (error e ∷ fs) f = bytes_sent-snoc fs f

pub AllChunks-snoc : (fs : List Frame) (b : Bytes) → AllChunks fs → AllChunks (fs ++ chunk b ∷ [])
AllChunks-snoc [] b h = tt
AllChunks-snoc (chunk c ∷ fs) b h = AllChunks-snoc fs b h
AllChunks-snoc (end ∷ fs) b h = absurd h
AllChunks-snoc (error e ∷ fs) b h = absurd h

pub AllChunks-IsClosedOnce :
    (fs : List Frame) (f : Frame) → AllChunks fs → IsClosedOnce (fs ++ f ∷ [])
AllChunks-IsClosedOnce [] (chunk b) h = tt
AllChunks-IsClosedOnce [] end h = refl
AllChunks-IsClosedOnce [] (error e) h = refl
AllChunks-IsClosedOnce (chunk c ∷ fs) f h = AllChunks-IsClosedOnce fs f h
AllChunks-IsClosedOnce (end ∷ fs) f h = absurd h
AllChunks-IsClosedOnce (error e ∷ fs) f h = absurd h

pub open-IsClosedOnce : (fs : List Frame) → AllChunks fs → IsClosedOnce fs
open-IsClosedOnce [] h = tt
open-IsClosedOnce (chunk c ∷ fs) h = open-IsClosedOnce fs h
open-IsClosedOnce (end ∷ fs) h = absurd h
open-IsClosedOnce (error e ∷ fs) h = absurd h

abbrev pub weight : Option Bytes → ℕ
weight none = 0
weight (some b) = 1

-- The rounds that the loop still has before it, but for the last.
abbrev pub left_to_do : Pump → ℕ
left_to_do s = length s.reads + (if s.credits == 0 then 0 else weight s.buffered)

-- An open stream has stopped for want of credit or of data.
abbrev pub IsIdle : Pump → Type 0
IsIdle t = t.finished ≡ false → (t.credits ≡ 0) ⊎ (waiting t ≡ [])

-- A stream whose source has produced `source` and whose peer was granted `total` bytes.
pub record Inv (source : Bytes) (total : ℕ) (s : Pump) : Type 0 where
  pub in_order : (rest : Bytes) × (bytes_sent s.sent ++ rest ≡ source)
  pub kept : s.finished ≡ false → bytes_sent s.sent ++ waiting s ≡ source
  pub spent : length (bytes_sent s.sent) + s.credits ≡ total
  pub silent : s.granted ≡ false → OnlyErrors s.sent
  pub chunks : s.finished ≡ false → AllChunks s.sent
  pub closed : IsClosedOnce s.sent

-- The same while the pump has taken `bytes` off the source or its buffer, and `rest` is behind.
pub record Holding (source : Bytes) (total : ℕ) (bytes rest : Bytes) (s : Pump) : Type 0 where
  pub kept : bytes_sent s.sent ++ bytes ++ rest ≡ source
  pub spent : length (bytes_sent s.sent) + s.credits ≡ total
  pub granted : s.granted ≡ true
  pub chunks : AllChunks s.sent

module _ (source : Bytes) (total : ℕ) where
  -- The flag that keeps the pump from running within itself is no part of the invariant.
  pub pumping-Inv :
      (b : Bool) (s : Pump) → Inv source total s → Inv source total (record s { pumping = b })
  pumping-Inv b s v = record {
    in_order = v.in_order;
    kept = v.kept;
    spent = v.spent;
    silent = v.silent;
    chunks = v.chunks;
    closed = v.closed;
  }

  pub fail-Inv : (reason : Text) (s : Pump) → Inv source total s → Inv source total (fail reason s)
  unfolding fail
  fail-Inv reason s v = elim (Bool-cases s.finished) [
    | inl e ↦ simp e v
    | inr e ↦ simp e (record {
      in_order = rw (bytes_sent-snoc s.sent (error reason), append-nil) v.in_order;
      kept = λ f. cc;
      spent = rw (bytes_sent-snoc s.sent (error reason), append-nil) v.spent;
      silent = λ f. OnlyErrors-snoc s.sent reason (v.silent f);
      chunks = λ f. cc;
      closed = AllChunks-IsClosedOnce s.sent (error reason) (v.chunks e);
    })
  ]

  pub finish-Inv : (s : Pump) → s.granted ≡ true → Inv source total s → Inv source total (finish s)
  unfolding finish
  finish-Inv s g v = elim (Bool-cases s.finished) [
    | inl e ↦ simp e v
    | inr e ↦ simp e (record {
      in_order = rw (bytes_sent-snoc s.sent end, append-nil) v.in_order;
      kept = λ f. cc;
      spent = rw (bytes_sent-snoc s.sent end, append-nil) v.spent;
      silent = λ f. cc;
      chunks = λ f. cc;
      closed = AllChunks-IsClosedOnce s.sent end (v.chunks e);
    })
  ]

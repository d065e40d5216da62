-- ===== src/Handles/Cursor.antt =====
-- A position that goes round an array of slots, as `acquirePos`, `releasePos` and `currentPos` do.
use godror.Base.{
  ℕ, zero, suc, ◌+◌, ◌-◌, ◌<◌, ◌≡◌, ◌≢◌, refl, ◌∙◌, ◌==◌, leb, ltb, if◌then◌else◌, arith,
}

-- `pos++; if (pos == numSlots) pos = 0`
abbrev pub next_slot : ℕ → ℕ → ℕ
next_slot n pos = if pos + 1 == n then 0 else pos + 1

pub next_slot-lt : (n pos : ℕ) → pos < n → next_slot n pos < n
next_slot-lt n pos h = ground arith

-- `k` steps on
unfoldable pub advance : ℕ → ℕ → ℕ → ℕ
advance n pos zero = pos
advance n pos (suc k) = advance n (next_slot n pos) k

-- where fewer than `n` steps lead
pub advance_lem :
    (n pos k : ℕ)
    → pos < n
    → k < n
    → advance n pos k ≡ (if ltb (pos + k) n then pos + k else pos + k - n)
unfolding advance
advance_lem n pos zero h l = ground arith
advance_lem n pos (suc k) h l =
    advance_lem n (next_slot n pos) k (next_slot-lt n pos h) (omega arith) ∙ ground arith

pub advance-lt : (n pos k : ℕ) → pos < n → advance n pos k < n
unfolding advance
advance-lt n pos zero h = h
advance-lt n pos (suc k) h = advance-lt n (next_slot n pos) k (next_slot-lt n pos h)

pub advance-next : (n pos k : ℕ) → advance n pos (suc k) ≡ next_slot n (advance n pos k)
unfolding advance
advance-next n pos zero = refl
advance-next n pos (suc k) = advance-next n (next_slot n pos) k

-- Fewer than `n` steps do not lead back.
pub advance-ne : (n pos k : ℕ) → pos < n → 0 < k → k < n → advance n pos k ≢ pos
advance-ne n pos k h l m = ground (arith, advance_lem n pos k h m)

-- Different numbers of steps lead to different slots.
pub advance-apart : (n pos j k : ℕ) → pos < n → j < k → k < n → advance n pos j ≢ advance n pos k
advance-apart n pos j k h l m =
    ground (arith, advance_lem n pos j h (omega arith), advance_lem n pos k h m)

-- The steps from one slot to another.
abbrev pub distance : ℕ → ℕ → ℕ → ℕ
distance n pos e = if leb pos e then e - pos else e + n - pos

pub advance-distance : (n pos e : ℕ) → pos < n → e < n → advance n pos (distance n pos e) ≡ e
advance-distance n pos e h l = advance_lem n pos (distance n pos e) h (ground arith) ∙ ground arith

pub distance-lt : (n pos e : ℕ) → pos < n → e < n → distance n pos e < n
distance-lt n pos e h l = ground arith

-- All the way round.
pub advance-full : (n pos : ℕ) → pos < n → advance n pos n ≡ pos
advance-full zero pos h = absurd (omega arith)
advance-full (suc n) pos h =
    advance-next (suc n) pos n ∙ ground (arith, advance_lem (suc n) pos n h (omega arith))

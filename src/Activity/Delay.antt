-- ===== src/Activity/Delay.antt =====
-- activity.go: instants, and the delay of a node.
use directory_exporter.Common.{
  ℕ, ◌/◌, ◌-◌, ℤ, pos, negsuc, pos_part, ltb_ℤ, leb_ℤ, sub_int64, ◌<◌, ◌&&◌, if◌then◌else◌, ◌≡◌,
  arith, ◌≤◌, ◌^◌, ltb, leb, not, Bool-cases, inl, inr, ltb→lt,
}

-- An instant in nanoseconds since the epoch; `Unix()` rounds it down to seconds.
abbrev pub Instant : Type 0
Instant = ℤ

abbrev pub unix : Instant → ℤ
unix (pos n) = pos (n / 1000000000)
unix (negsuc n) = negsuc (n / 1000000000)

-- `int64(minDelay.Seconds())` for a duration that is not negative.
abbrev pub whole_seconds : ℤ → ℕ
whole_seconds d = pos_part d / 1000000000

-- `delay := now.Unix() - epoch`, with the two corrections behind it.
unfoldable pub delay_since : ℤ → ℤ → ℤ → ℤ
delay_since min_delay now epoch =
    let d = sub_int64 now epoch in
    let delay = if ltb_ℤ d (pos 0) then pos 0 else d in
    if ltb_ℤ (pos 0) min_delay && leb_ℤ delay (pos (whole_seconds min_delay)) then pos 0 else delay

sub_small : (n e : ℕ) → n < 2 ^ 63 → e < 2 ^ 63 → e ≤ n → sub_int64 (pos n) (pos e) ≡ pos (n - e)
unfolding sub_int64
sub_small n e hn he h = ground arith

sub_below :
    (n e : ℕ) → n < 2 ^ 63 → e < 2 ^ 63 → n < e → sub_int64 (pos n) (pos e) ≡ negsuc (e - n - 1)
unfolding sub_int64
sub_below n e hn he h = ground arith

-- For times from the epoch on that an `int64` holds: the delay is the time since the activity, but 0
-- where the activity is not in the past, or not longer ago than the minimum delay that is set.
delay_since-cases :
    (min_delay : ℤ) (now epoch : ℕ)
    → now < 2 ^ 63
    → epoch < 2 ^ 63
    → delay_since min_delay (pos now) (pos epoch) ≡ (
        if ltb epoch now
          && not (ltb_ℤ (pos 0) min_delay && leb (now - epoch) (whole_seconds min_delay))
        then pos (now - epoch)
        else pos 0)
unfolding delay_since
delay_since-cases min_delay now epoch hn he = elim (Bool-cases (ltb now epoch)) [
  | inl future ↦ rw (sub_below now epoch hn he (ltb→lt now epoch future)) (ground arith)
  | inr past ↦ rw (sub_small now epoch hn he (ground arith)) (ground arith)
]

-- ===== src/Payment/Authorization/Window.antt =====
-- The window of a built authorization.
use zadper.Common.{ℕ, ◌+◌, ◌-◌, ◌^◌, ◌≤◌, ◌<◌, ◌≡◌, min, some, arith, ok}
use zadper.Common.Decimal.{decimal, to_decimal}
use zadper.Common.Decimal.RoundTrip.{decimal-to_decimal}
use zadper.Payment.Authorization.{
  max_safe_integer, double_sum, AuthorizationWindow, build_authorization_window,
}

-- A window that reads as two times, the first at or before now and the second `timeout` later, or,
-- where that is above 2 ^ 53, within a second of it.
pub record IsOpen (w : AuthorizationWindow) (now timeout : ℕ) : Type 0 where
  pub valid_after : ℕ
  pub valid_before : ℕ
  pub after_read : decimal w.valid_after ≡ some valid_after
  pub before_read : decimal w.valid_before ≡ some valid_before
  pub started : valid_after ≤ now
  pub not_over : now < valid_before
  pub near : now ≤ valid_after + 5
  pub long : valid_after + timeout ≤ 2 ^ 53 → valid_before ≡ valid_after + timeout
  pub not_longer : valid_before ≤ valid_after + timeout + 1
  pub not_shorter : valid_after + timeout ≤ valid_before + 1

double_sum-exact : (a b : ℕ) → a + b ≤ 2 ^ 53 → double_sum a b ≡ a + b
unfolding double_sum
double_sum-exact a b h = ground arith

double_sum-le : (a b : ℕ) → double_sum a b ≤ a + b + 1
unfolding double_sum
double_sum-le a b = ground arith

double_sum-ge : (a b : ℕ) → a + b ≤ double_sum a b + 1
unfolding double_sum
double_sum-ge a b = ground arith

-- A sum above 2 ^ 53 is not rounded below it.
double_sum-above : (a b n : ℕ) → n < a + b → n < 2 ^ 53 → n < double_sum a b
unfolding double_sum
double_sum-above a b n h k = ground arith

-- For a time and a positive timeout that are safe integers, a window is built; it has begun, by no
-- more than five seconds, has not ended, and is as long as the timeout where its end is at most
-- 2 ^ 53, and within a second of it above, where the sum of two doubles is rounded.
pub build_authorization_window-IsOpen :
    (now timeout : ℕ)
    → now ≤ max_safe_integer
    → 0 < timeout
    → timeout ≤ max_safe_integer
    → (w : AuthorizationWindow) × (build_authorization_window now timeout ≡ ok w)
      × IsOpen w now timeout
unfolding build_authorization_window
build_authorization_window-IsOpen now timeout safe positive timeout_safe =
    let start : ℕ = now - min (min 5 (timeout - 1)) now in
    let end : ℕ = double_sum start timeout in
    (
      record { valid_after = to_decimal start; valid_before = to_decimal end },
      ground arith,
      record {
        valid_after = start;
        valid_before = end;
        after_read = decimal-to_decimal start;
        before_read = decimal-to_decimal end;
        started = omega arith;
        not_over = double_sum-above start timeout now (omega arith) (omega arith);
        near = omega arith;
        long = double_sum-exact start timeout;
        not_longer = double_sum-le start timeout;
        not_shorter = double_sum-ge start timeout;
      },
    )

-- ===== src/Payment/Authorization/Tests.antt =====
-- A run of `buildAuthorizationWindow`, and the theorem at it.
use zadper.Common.{◌≡◌, ◌-◌, ◌^◌, refl, ok, arith}
use zadper.Payment.Authorization.{AuthorizationWindow, double_sum, build_authorization_window}
use zadper.Payment.Authorization.Window.{IsOpen, build_authorization_window-IsOpen}

-- Two of the largest safe integers, the first less the skew.
double_sum_test : double_sum (2 ^ 53 - 6) (2 ^ 53 - 1) ≡ 2 ^ 54 - 8
unfolding double_sum
double_sum_test = refl

build_authorization_window-IsOpen_example :
    (w : AuthorizationWindow) × (build_authorization_window 1000 60 ≡ ok w) × IsOpen w 1000 60
build_authorization_window-IsOpen_example =
    build_authorization_window-IsOpen 1000 60 (omega arith) (omega arith) (omega arith)

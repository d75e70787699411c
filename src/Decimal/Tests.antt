-- ===== src/Decimal/Tests.antt =====
-- Decimal numerals: runs of the printer.
use confidential_model_route.Common.{◌≡◌, refl, text}
use confidential_model_route.Decimal.{digits, show}

show_of_120 : show 120 ≡ text "120"
unfolding show digits
show_of_120 = refl

show_of_0 : show 0 ≡ text "0"
unfolding show digits
show_of_0 = refl

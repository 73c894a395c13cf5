-- ===== src/Net/Tests.antt =====
-- A socket that takes at most three bytes a time.
use syncscribe.Common.{ℕ, ◌≡◌, refl, List, [], ◌∷◌, some, arith}
use syncscribe.Types.{pos}
use syncscribe.Net.{Send, MakesProgress, blocking_send, send_from}
use syncscribe.Net.Complete.{Sends, blocking_send-Sends}

abbrev slow : Send
slow round [] = some 0
slow round (x ∷ []) = some 1
slow round (x ∷ (y ∷ [])) = some 2
slow round (x ∷ (y ∷ (z ∷ buffer))) = some 3

slow-MakesProgress : MakesProgress slow
slow-MakesProgress round [] n h e = absurd (omega arith)
slow-MakesProgress round (x ∷ []) n h e = ground (arith, e)
slow-MakesProgress round (x ∷ (y ∷ [])) n h e = ground (arith, e)
slow-MakesProgress round (x ∷ (y ∷ (z ∷ buffer))) n h e = ground (arith, e)

abbrev five : List ℕ
five = 1 ∷ 2 ∷ 3 ∷ 4 ∷ 5 ∷ []

blocking_send-Sends_example : Sends five (blocking_send slow five)
blocking_send-Sends_example = blocking_send-Sends slow five slow-MakesProgress

sent : blocking_send slow five ≡ some (pos 0, five)
unfolding blocking_send send_from
sent = refl

-- ===== src/Net/Transfer.antt =====
-- What the two transfer loops share.
use xfer.Base.{ℕ, ◌^◌, ◌<◌, ◌≡◌, arith, some}
use xfer.Base.Int.{pos, to_int}
use xfer.Net.{Socket}

-- A connected socket.
abbrev pub socket : ℕ → Socket
socket fd = record { fd = some fd }

-- A count below 2 ^ 31 is itself as an `int`.
pub to_int-small : (n : ℕ) → n < 2 ^ 31 → to_int n ≡ pos n
to_int-small n h = ground arith

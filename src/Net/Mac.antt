-- ===== src/Net/Mac.antt =====
-- `SendFromFd` in src/net/socket.cpp as it is built for macOS, with the `sendfile` of that system.
pub mod Sending
mod Examples
use xfer.Base.{drop-add, length-drop}
use xfer.Base.{
  ℕ, zero, suc, ◌+◌, ◌-◌, ◌%◌, ◌^◌, ◌≤◌, ◌<◌, ◌≡◌, ◌≢◌, ◌⊎◌, inl, inr, refl, ap, ap₂, subst, sym,
  ◌∙◌, arith,
}
use xfer.Base.{Bool, true, false, Bool-cases, ltb, ◌==◌, if◌then◌else◌}
use xfer.Base.{List, ◌++◌, length, take, drop, some}
use xfer.Os.{Os, Fd, Reply, done, failed}
use xfer.Os.Action.{
  Action, State, Outcome, pure, call, throw, ◌>>=◌, stuck, system, bad_file_descriptor,
}
use xfer.Os.Laws.{View, IsConnection}
use xfer.Net.{Socket, refuse, is_valid, size_sub, eintr, sendfile_max}
use xfer.Net.Transfer.{socket}
use xfer.Net.SendAll.{Sent}
use xfer.Net.Prefix.{PrefixEnds, PrefixEnds-append, PrefixEnds-cast, Sent-nothing}

-- `sendfile(source, out, offset, &len, nullptr, 0)` with `len` what is wanted: the reply, and `len`
-- after the call.
abbrev pub MacSendfile : Type 0 → Type 0
MacSendfile World = ℕ → Fd → ℕ → ℕ → World → (Reply (Unit {0}) × ℕ) × World

abbrev mac_want : ℕ → ℕ
mac_want remaining = if ltb sendfile_max remaining then sendfile_max else remaining

module _ (os : Os) (mac_sendfile : MacSendfile os.World) where
  mac_loop : Socket → ℕ → ℕ → ℕ → ℕ → Action os.World ℕ
  mac_loop sock source_fd fuel zero off = pure off
  mac_loop sock source_fd zero (suc remaining) off = λ s. stuck
  mac_loop sock source_fd (suc fuel) (suc remaining) off = do
    (reply, len) ← call (mac_sendfile source_fd sock.fd off (mac_want (suc remaining)))
    elim reply [
      | failed e ↦ elim (e == eintr) [
        | true ↦ mac_loop sock source_fd fuel (size_sub (suc remaining) len) ((off + len) % 2 ^ 64)
        | false ↦ refuse os e
      ]
      | done _ ↦ mac_loop sock source_fd fuel (size_sub (suc remaining) len) ((off + len) % 2 ^ 64)
    ]

  -- The new value of `offset_in_out`, as in `send_from_fd`.
  unfoldable pub send_from_fd_mac : Socket → ℕ → ℕ → ℕ → ℕ → Action os.World ℕ
  unfolding mac_loop
  send_from_fd_mac sock source_fd fuel offset len =
      if is_valid sock then mac_loop sock source_fd fuel len offset else throw bad_file_descriptor

  module _ (fd : ℕ) (view : os.World → View) where
    -- However the call answers, `len` says how many bytes of the file went out, from the offset on.
    pub record IsMacSendfile : Type 0 where
      pub answers :
          (h offset want : ℕ) (w : os.World) (r : Reply (Unit {0})) (len : ℕ) (w' : os.World)
          → mac_sendfile h (some fd) offset want w ≡ ((r, len), w')
          → (len ≤ want)
            × (len ≤ length (drop offset ((view w).reads h)))
            × (view w' ≡ record (view w) {
              sent = (view w).sent ++ take len (drop offset ((view w).reads h));
            })

    -- No call fails.
    pub record IsMacSteady : Type 0 where
      pub succeeds :
          (h offset want : ℕ) (w : os.World) (e len : ℕ) (w' : os.World)
          → mac_sendfile h (some fd) offset want w ≢ ((failed e, len), w')

mac_want_bounds : (n : ℕ) → (0 < mac_want (suc n)) × (mac_want (suc n) ≤ suc n)
mac_want_bounds n = ground arith

module _ (os : Os) (mac_sendfile : MacSendfile os.World) (fd : ℕ) (view : os.World → View)
    (conn : IsConnection os fd view) (answering : IsMacSendfile os mac_sendfile fd view) where
  -- Of the calls that send `len` bytes from `off` on, beginning in a world, one is interrupted, or it
  -- succeeds and sends nothing, after others that went well.
  pub data IsIdle (h : ℕ) : os.World → ℕ → ℕ → Type 0 where
    interrupted :
        (n off len : ℕ) (w w' : os.World)
        → mac_sendfile h (some fd) off (mac_want (suc n)) w ≡ ((failed eintr, len), w')
        → IsIdle h w (suc n) off
    sent_nothing :
        (n off : ℕ) (w w' : os.World)
        → mac_sendfile h (some fd) off (mac_want (suc n)) w ≡ ((done tt, 0), w')
        → IsIdle h w (suc n) off
    idle_later :
        (n off len : ℕ) (w w' : os.World)
        → mac_sendfile h (some fd) off (mac_want (suc n)) w ≡ ((done tt, len), w')
        → IsIdle h w' (size_sub (suc n) len) ((off + len) % 2 ^ 64)
        → IsIdle h w (suc n) off

  -- The last call failed, and was not interrupted.
  abbrev pub MacRefused : ℕ → State os.World → Type 0
  MacRefused h t =
      (offset want : ℕ) × (w : os.World) × (e len : ℕ) × (mac_sendfile h (some fd) offset want w
        ≡ ((failed e, len), t.world))
      × (e ≢ eintr)
      × (t.ec ≡ system e)

  abbrev pub MacEnds : ℕ → Type 0 → List ℕ → ℕ → ℕ → State os.World → Outcome os.World ℕ → Type 0
  MacEnds h Out rest off len =
      PrefixEnds os fd view conn (MacRefused h) Out (λ off'. off' ≡ off + len) rest len

-- ===== src/Wire/Frame.antt =====
-- What the wire functions leave alone: whatever holds of what can be seen, and goes on to hold when
-- bytes are taken off the incoming stream or given to the kernel, holds after each of them.
use xfer.Base.{ℕ, ◌^◌, ◌<◌, ◌≡◌, sym, subst, arith, inl, inr, Bool-cases}
use xfer.Base.{List, ◌++◌, length, take, drop, All, All-drop, All-unappend, ltb, ◌==◌}
use xfer.Crc.Serial.{IsByte}
use xfer.Crc.{compute}
use xfer.Os.{Os}
use xfer.Os.Action.{State, Outcome, Ensures, Ensures-after, Ensures-weaken}
use xfer.Os.Laws.{View, IsConnection}
use xfer.Net.{send_all, recv_all}
use xfer.Net.Transfer.{socket}
use xfer.Net.RecvAll.{recv_all_lem}
use xfer.Net.SendAll.{send_all_lem}
use xfer.Wire.{
  proto_magic, file_magic, done_magic, ack_bytes, parse_session_header, read_session_header,
  write_ack, read_path, read_entry, read_file_header, read_done,
}
use xfer.Wire.Words.{decode_u16, decode_u32, encode_u32}
use xfer.Wire.Words.RoundTrip.{decode_u16-lt}

pub record IsStable (P : View → Type 0) : Type 0 where
  pub taken :
      (v : View) (bytes rest : List ℕ)
      → v.incoming ≡ bytes ++ rest
      → P v
      → P (record v { incoming = rest })
  pub given : (v : View) (out : List ℕ) → P v → P (record v { sent = out })
  pub are_bytes : (v : View) → P v → All IsByte v.incoming

module _ (os : Os) (fd : ℕ) (view : os.World → View) (conn : IsConnection os fd view)
    (P : View → Type 0) (stable : IsStable P) where
  -- `P` holds however the call comes back.
  abbrev pub Keeps : {A : Type 0} → Outcome os.World A → Type 0
  Keeps = Ensures (λ _ t. P (view t.world)) (λ t. P (view t.world))

  recv_all-Keeps :
      (n : ℕ) (s : State os.World)
      → n < 2 ^ 31
      → P (view s.world)
      → Ensures
          (λ got t. (All IsByte got × (length got ≡ n)) × P (view t.world))
          (λ t. P (view t.world))
          (recv_all os (socket fd) n s)
  recv_all-Keeps n s small h =
      Ensures-weaken _ _ _ _ (recv_all os (socket fd) n s) (recv_all_lem os fd view conn n s small)
        (λ got t (bytes, g, l, (taken, same), c). (
          (
            subst (All IsByte) (sym g)
                (All-unappend IsByte bytes _ (subst (All IsByte) taken (stable.are_bytes _ h))).0,
            cc,
          ),
          subst P (sym same) (stable.taken (view s.world) bytes _ taken h),
        ))
        (λ t (bytes, l, (taken, same), c).
          subst P (sym same) (stable.taken (view s.world) bytes _ taken h))

  send_all-Keeps :
      (bytes : List ℕ) (s : State os.World)
      → length bytes < 2 ^ 31
      → P (view s.world)
      → Keeps (send_all os (socket fd) bytes s)
  send_all-Keeps bytes s small h =
      Ensures-weaken _ _ _ _ (send_all os (socket fd) bytes s)
        (send_all_lem os fd view conn bytes s small)
        (λ _ t (d, c). subst P (sym d) (stable.given (view s.world) _ h))
        (λ t (k, l, d, c). subst P (sym d) (stable.given (view s.world) _ h))

  pub read_session_header-Keeps :
      (s : State os.World) → P (view s.world) → Keeps (read_session_header os (socket fd) s)
  unfolding read_session_header parse_session_header
  read_session_header-Keeps s h =
      Ensures-after _ _ _ (recv_all os (socket fd) 32 s) (parse_session_header os)
        (recv_all-Keeps 32 s (omega arith) h) (λ buf t (_, p). parsed buf t p)
    where
      parsed :
          (buf : List ℕ) (t : State os.World)
          → P (view t.world)
          → Keeps (parse_session_header os buf t)
      parsed buf t p = elim (Bool-cases (decode_u32 buf == proto_magic)) [
        | inl e ↦ rw e (elim (Bool-cases (decode_u32 (drop 28 buf) == compute (take 28 buf))) [
          | inl f ↦ rw f p
          | inr f ↦ rw f p
        ])
        | inr e ↦ rw e p
      ]

  pub write_ack-Keeps :
      (flags : ℕ) (s : State os.World) → P (view s.world) → Keeps (write_ack os (socket fd) flags s)
  unfolding write_ack ack_bytes encode_u32
  write_ack-Keeps flags s h = send_all-Keeps (ack_bytes flags) s (omega arith) h

  pub read_done-Keeps : (s : State os.World) → P (view s.world) → Keeps (read_done os (socket fd) s)
  unfolding read_done
  read_done-Keeps s h =
      Ensures-after _ _ _ (recv_all os (socket fd) 4 s) _ (recv_all-Keeps 4 s (omega arith) h)
        (λ buf t (_, p). elim (Bool-cases (decode_u32 buf == done_magic)) [
          | inl e ↦ rw e p
          | inr e ↦ rw e p
        ])

  read_path-Keeps :
      (n : ℕ) (s : State os.World)
      → n < 2 ^ 31
      → P (view s.world)
      → Keeps (read_path os (socket fd) n s)
  unfolding read_path
  read_path-Keeps n s small h = elim (Bool-cases (ltb 0 n)) [
    | inl e ↦ rw e (
        Ensures-weaken {A = List ℕ}
          (λ got t. (All IsByte got × (length got ≡ n)) × P (view t.world))
          (λ _ t. P (view t.world)) (λ t. P (view t.world)) (λ t. P (view t.world))
          (recv_all os (socket fd) n s) (recv_all-Keeps n s small h) (λ _ t (_, p). p) (λ t p. p))
    | inr e ↦ rw e h
  ]

  pub read_file_header-Keeps :
      (s : State os.World) → P (view s.world) → Keeps (read_file_header os (socket fd) s)
  unfolding read_file_header read_entry
  read_file_header-Keeps s h =
      Ensures-after _ _ _ (recv_all os (socket fd) 18 s) _ (recv_all-Keeps 18 s (omega arith) h)
        (λ buf t ((bytes, _), p). elim (Bool-cases (decode_u32 buf == file_magic)) [
          | inl e ↦ rw e (
              Ensures-after _ _ _ (read_path os (socket fd) (decode_u16 (drop 4 buf)) t) _
                (read_path-Keeps (decode_u16 (drop 4 buf)) t
                  (omega (arith, decode_u16-lt (drop 4 buf) (All-drop IsByte 4 buf bytes))) p)
                (λ path u q. q))
          | inr e ↦ rw e p
        ])

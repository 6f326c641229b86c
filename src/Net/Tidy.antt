-- ===== src/Net/Tidy.antt =====
-- The transfers of src/net/socket.cpp open and close nothing.
use xfer.Base.{
  Bool, true, false, ℕ, zero, suc, ◌+◌, ◌%◌, ◌^◌, List, [], ◌∷◌, ◌++◌, ◌==◌, ltb, drop, length,
  if◌then◌else◌,
}
use xfer.Base.Int.{negsuc}
use xfer.Os.{Os, Reply, done, failed}
use xfer.Os.Sockets.{Table}
use xfer.Os.Tidy.{
  IsTidy, KeepsOpen, KeepsOpen-pure, KeepsOpen-throw, KeepsOpen-fail, KeepsOpen-stuck,
  KeepsOpen-call, KeepsOpen-bind, KeepsOpen-if, KeepsOpen-int, KeepsOpen-bool, KeepsOpen-nat,
  KeepsOpen-reply, HasOpen, LeavesOpen, IsSame-HasOpen,
}
use xfer.Os.Action.{
  returns, stuck, Action, State, call, throw, fail, connection_reset, io_error, bad_file_descriptor,
  system,
}
use xfer.Net.{
  Socket, is_killed, is_valid, send, send_answer, send_loop, send_all, recv, recv_answer, recv_loop,
  recv_all, sendfile_loop, send_from_fd, size_sub, eintr, sendfile_max,
}

module _ (os : Os) (opened streams : os.World → Table) (tidy : IsTidy os opened streams)
    (fds files : Table) where
  abbrev Keeps : {A : Type 0} → Action os.World A → Type 0
  Keeps = KeepsOpen os opened streams fds files

  send-KeepsOpen : (sock : Socket) (bytes : List ℕ) → Keeps (send os sock bytes)
  unfolding send send_answer
  send-KeepsOpen sock bytes = record {
    leaves = λ s h.
        answered s (os.send sock.fd bytes s.world)
          (IsSame-HasOpen os opened streams fds files _ _ (tidy.send_lem sock.fd bytes s.world) h);
  }
    where
      answered :
          (s : State os.World) (r : Reply ℕ × os.World)
          → HasOpen os opened streams fds files r.1
          → LeavesOpen os opened streams fds files (send_answer os s r)
      answered s (done n, w) left = left
      answered s (failed e, w) left = written (is_killed os e)
        where
          written :
              (b : Bool)
              → LeavesOpen os opened streams fds files (elim b [
                | true ↦ stuck
                | false ↦ returns (negsuc 0) (record { world = w; ec = system e })
              ])
          written true = tt
          written false = left

  recv-KeepsOpen : (sock : Socket) (len : ℕ) → Keeps (recv os sock len)
  unfolding recv recv_answer
  recv-KeepsOpen sock len = record {
    leaves = λ s h.
        answered s (os.recv sock.fd len s.world)
          (IsSame-HasOpen os opened streams fds files _ _ (tidy.recv_lem sock.fd len s.world) h);
  }
    where
      answered :
          (s : State os.World) (r : Reply (List ℕ) × os.World)
          → HasOpen os opened streams fds files r.1
          → LeavesOpen os opened streams fds files (recv_answer os s r)
      answered s (done bytes, w) left = left
      answered s (failed e, w) left = left

  send_loop-KeepsOpen :
      (sock : Socket) (fuel : ℕ) (bytes : List ℕ) → Keeps (send_loop os sock fuel bytes)
  unfolding send_loop
  send_loop-KeepsOpen sock fuel [] = KeepsOpen-pure tt
  send_loop-KeepsOpen sock zero (b ∷ p) = KeepsOpen-stuck _
  send_loop-KeepsOpen sock (suc fuel) (b ∷ p) =
      KeepsOpen-bind (send os sock (b ∷ p)) _ (send-KeepsOpen sock (b ∷ p)) λ n.
        KeepsOpen-int n fail fail _ (KeepsOpen-fail _) (KeepsOpen-fail _)
          (λ m. send_loop-KeepsOpen sock fuel (drop (suc m) (b ∷ p)))

  pub send_all-KeepsOpen : (sock : Socket) (bytes : List ℕ) → Keeps (send_all os sock bytes)
  unfolding send_all
  send_all-KeepsOpen sock bytes = send_loop-KeepsOpen sock (length bytes) bytes

  recv_loop-KeepsOpen :
      (sock : Socket) (fuel len : ℕ) (out : List ℕ) → Keeps (recv_loop os sock fuel len out)
  unfolding recv_loop
  recv_loop-KeepsOpen sock fuel zero out = KeepsOpen-pure out
  recv_loop-KeepsOpen sock zero (suc len) out = KeepsOpen-stuck _
  recv_loop-KeepsOpen sock (suc fuel) (suc len) out =
      KeepsOpen-bind (recv os sock (suc len)) _ (recv-KeepsOpen sock (suc len)) λ (n, bytes).
        KeepsOpen-int n fail (throw connection_reset) _ (KeepsOpen-fail _)
          (KeepsOpen-throw _ connection_reset)
          (λ m. recv_loop-KeepsOpen sock fuel (size_sub (suc len) (suc m)) (out ++ bytes))

  pub recv_all-KeepsOpen : (sock : Socket) (len : ℕ) → Keeps (recv_all os sock len)
  unfolding recv_all
  recv_all-KeepsOpen sock len = recv_loop-KeepsOpen sock len len []

  sendfile_loop-KeepsOpen :
      (sock : Socket) (h fuel len off : ℕ) → Keeps (sendfile_loop os sock h fuel len off)
  unfolding sendfile_loop
  sendfile_loop-KeepsOpen sock h fuel zero off = KeepsOpen-pure off
  sendfile_loop-KeepsOpen sock h zero (suc n) off = KeepsOpen-stuck _
  sendfile_loop-KeepsOpen sock h (suc fuel) (suc n) off =
      let want = if ltb sendfile_max (suc n) then sendfile_max else suc n in
      KeepsOpen-bind (call (os.sendfile sock.fd h off want)) _
        (KeepsOpen-call (os.sendfile sock.fd h off want)
          (λ w. tidy.sendfile_lem sock.fd h off want w))
        λ reply.
          KeepsOpen-reply reply _ _
            (λ e.
              KeepsOpen-bool (e == eintr) _ _ (sendfile_loop-KeepsOpen sock h fuel (suc n) off) (
                KeepsOpen-bool (is_killed os e) _ _ (KeepsOpen-stuck _)
                  (KeepsOpen-throw _ (system e))))
            λ k. KeepsOpen-nat k _ _ (KeepsOpen-throw _ io_error) λ m.
              sendfile_loop-KeepsOpen sock h fuel (size_sub (suc n) (suc m))
                ((off + suc m) % 2 ^ 64)

  pub send_from_fd-KeepsOpen :
      (sock : Socket) (h rounds off len : ℕ) → Keeps (send_from_fd os sock h rounds off len)
  unfolding send_from_fd
  send_from_fd-KeepsOpen sock h rounds off len =
      KeepsOpen-if (is_valid sock) (sendfile_loop os sock h rounds len off)
        (throw bad_file_descriptor) (sendfile_loop-KeepsOpen sock h rounds len off)
        (KeepsOpen-throw _ bad_file_descriptor)

-- ===== src/Net/Chunk.antt =====
-- A part of a file that was read and is sent with `SendAll`, the step that `SendFileBytes` in
-- src/transfer/sender.cpp and `SendFromFd` in src/net/socket.cpp have in common.
use xfer.Base.{drop-add, length-append, take-append, take-append_left}
use xfer.Base.{ℕ, ◌+◌, ◌-◌, ◌%◌, ◌^◌, ◌≤◌, ◌<◌, ◌≡◌, inr, refl, ap, ap₂, ◌∙◌, arith}
use xfer.Base.{List, ◌++◌, length, take, drop}
use xfer.Os.{Os}
use xfer.Os.Action.{Action, State, Outcome, returns, fails, stuck, after, ◌>>◌}
use xfer.Os.Laws.{View, IsConnection}
use xfer.Net.{size_sub, send_all}
use xfer.Net.Transfer.{socket}
use xfer.Net.SendAll.{Sent, SendRefused, SendEnds, send_all_lem}
use xfer.Net.Prefix.{PrefixEnds, PrefixEnds-append, PrefixEnds-cast}

module _ (os : Os) (fd : ℕ) (view : os.World → View) (conn : IsConnection os fd view) (h : ℕ) where
  abbrev rest_of : ℕ → State os.World → List ℕ
  rest_of off s = drop off ((view s.world).reads h)

  module _ (A : Type 0) (Why : State os.World → Type 0) (Out : Type 0)
      (refused : (t : State os.World) → SendRefused os fd view conn t → Why t)
      (Good Good' : A → Type 0) (good : (a : A) → Good' a → Good a) (chunk : List ℕ) (n off : ℕ)
      (s : State os.World) (w : os.World) (go_on : Action os.World A) where
    abbrev Ends : (A → Type 0) → List ℕ → ℕ → State os.World → Outcome os.World A → Type 0
    Ends = PrefixEnds os fd view conn Why Out

    -- What is left behind the chunk.
    later :
        (u : State os.World)
        → view w ≡ view s.world
        → Sent os fd view conn chunk (record s { world = w }) u
        → (off + length chunk) % 2 ^ 64 ≡ off + length chunk
        → rest_of ((off + length chunk) % 2 ^ 64) u ≡ drop (length chunk) (rest_of off s)
    later u v sent e =
        ap₂ (λ (j : ℕ) (x : View). drop j (x.reads h)) e sent
        ∙ ap (λ (x : View). drop (off + length chunk) (x.reads h)) v
        ∙ drop-add off (length chunk) ((view s.world).reads h)

    -- The chunk is read in the world `w`, and what is left is sent as it should be.
    pub chunk_lem :
        length chunk ≤ n
        → length chunk < 2 ^ 31
        → off + n < 2 ^ 64
        → view w ≡ view s.world
        → rest_of off s ≡ chunk ++ drop (off + length chunk) ((view s.world).reads h)
        → ((u : State os.World)
            → Ends Good'
                (rest_of ((off + length chunk) % 2 ^ 64) u)
                (size_sub n (length chunk))
                u
                (go_on u))
        → Ends Good
            (rest_of off s)
            n
            s
            ((send_all os (socket fd) chunk >> go_on) (record s { world = w }))
    chunk_lem fewer small fits v splits again =
        by_sent (send_all os (socket fd) chunk (record s { world = w }))
          (send_all_lem os fd view conn chunk (record s { world = w }) small)
      where
        by_sent :
            (r : Outcome os.World (Unit {0}))
            → SendEnds os fd view conn chunk (record s { world = w }) r
            → Ends Good (rest_of off s) n s (after r (λ _. go_on))
        by_sent (returns _ u) (sent, same) =
            PrefixEnds-append os fd view conn Why Out Good Good' (length chunk) n (rest_of off s) s
              u _
              (omega (
                arith,
                ap (λ (xs : List ℕ). length xs) splits,
                length-append chunk (drop (off + length chunk) ((view s.world).reads h)),
              ))
              fewer
              (cc (
                sent,
                v,
                ap (take (length chunk)) splits,
                take-append (length chunk) chunk
                    (drop (off + length chunk) ((view s.world).reads h)) refl,
              ))
              same good
              (PrefixEnds-cast os fd view conn Why Out Good' Good'
                (rest_of ((off + length chunk) % 2 ^ 64) u) (drop (length chunk) (rest_of off s))
                (size_sub n (length chunk)) (n - length chunk) u u _ (later u v sent (omega arith))
                (omega arith) refl refl (λ a g. g) (again u))
        by_sent (fails u) (j, few, sent, why) = (
          j,
          omega arith,
          cc (
            sent,
            v,
            ap (take j) splits,
            take-append_left j chunk (drop (off + length chunk) ((view s.world).reads h))
                (omega arith),
          ),
          inr (refused u why),
        )
        by_sent stuck i = absurd i

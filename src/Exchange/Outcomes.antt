-- ===== src/Exchange/Outcomes.antt =====
-- What the two sides of the exchange return, and where no address answers.
use nvm_rdma_examples.Prelude.{
  ℕ, Bool, true, false, not, ◌&&◌, ◌||◌, length, sym, ◌∙◌, append-nil, List, [], ◌∷◌, Option, none,
  some, ◌≡◌, ◌≢◌, refl, arith, if◌then◌else◌, Bool-cases, inl, inr,
}
use nvm_rdma_examples.Prelude.Int.{ℤ, minus_one, is_neg, is_zero, eq_int}
use nvm_rdma_examples.Sockets.{Sockets}
use nvm_rdma_examples.Effects.{Call, Sys}
use nvm_rdma_examples.Ledger.{last_call}
use nvm_rdma_examples.QueuePair.{ConnectInfo}
use nvm_rdma_examples.Message.{msg_size}
use nvm_rdma_examples.Text.Digits.{Bytes}
use nvm_rdma_examples.Message.{Fits}
use nvm_rdma_examples.Message.RoundTrip.{format_msg_lem, drop_all}
use nvm_rdma_examples.Exchange.Agreement.{text_of}
use nvm_rdma_examples.Exchange.{
  Locals, connect_loop, bind_loop, client_talk, server_talk, is_full, buffer_after, overlay,
}

-- A whole message leaves the buffer with its length.
length-buffer_after_full :
    (message : Option Bytes) (buf : Bytes)
    → length buf ≡ msg_size
    → is_full message ≡ true
    → length (buffer_after message buf) ≡ msg_size
unfolding is_full buffer_after overlay
length-buffer_after_full none buf h e = h
length-buffer_after_full (some bytes) buf h e =
    let full : length bytes ≡ msg_size = ground arith in
    rw (drop_all (length bytes) buf (h ∙ sym full), append-nil bytes) full

module _ {W : Type 0} (n : Sockets W) where
  -- Where there is an address, every socket opens, and every attempt to connect fails, the loop of
  -- the client still returns a descriptor that is not negative: the one that its last call has just
  -- closed.
  pub connect_loop_refused :
      ((t : ℕ) (w : W) → is_neg (n.socket t w).0 ≡ false)
      → ((fd : ℤ) (t : ℕ) (w : W) → is_zero (n.connect fd t w).0 ≡ false)
      → (ts : List ℕ) (sockfd : ℤ) (s : Sys W) → ts ≢ []
      → (is_neg (connect_loop n ts sockfd s).0 ≡ false)
        × (last_call (connect_loop n ts sockfd s).1.calls
            ≡ some (Call.closed (connect_loop n ts sockfd s).0))
  unfolding connect_loop
  connect_loop_refused opened refused [] sockfd s ne = absurd (ne refl)
  connect_loop_refused opened refused (t ∷ []) sockfd s ne =
      ground (arith, opened t s.world, refused (n.socket t s.world).0 t (n.socket t s.world).1)
  connect_loop_refused opened refused (t ∷ u ∷ us) sockfd s ne =
      let fd = (n.socket t s.world).0 in
      let s1 : Sys W = record {
        world = (n.socket t s.world).1;
        calls = Call.opened_socket t fd ∷ s.calls;
      } in
      let rc = n.connect fd t s1.world in
      let s2 : Sys W = record {
        world = n.close fd rc.1;
        calls = Call.closed fd ∷ Call.connected fd t rc.0 ∷ s1.calls;
      } in
      let o = opened t s.world in
      let r = refused fd t s1.world in
      rw (o, r) (connect_loop_refused opened refused (u ∷ us) fd s2 (λ e. cc))

  -- Where every attempt to bind fails, the loop of the server returns a negative descriptor.
  pub bind_loop_refused :
      ((fd : ℤ) (t : ℕ) (w : W) → is_zero (n.bind fd t w).0 ≡ false)
      → (ts : List ℕ) (sockfd : ℤ) (s : Sys W) → is_neg sockfd ≡ true
      → is_neg (bind_loop n ts sockfd s).0 ≡ true
  unfolding bind_loop
  bind_loop_refused refused [] sockfd s h = h
  bind_loop_refused refused (t ∷ ts) sockfd s h =
      let fd = (n.socket t s.world).0 in
      let s1 : Sys W = record {
        world = (n.socket t s.world).1;
        calls = Call.opened_socket t fd ∷ s.calls;
      } in
      let bound = n.bind fd t s1.world in
      let s2 : Sys W = record {
        world = n.close fd bound.1;
        calls = Call.closed fd ∷ Call.bound fd t bound.0 ∷ s1.calls;
      } in
      ground (
        arith,
        refused fd t s1.world,
        bind_loop_refused refused ts fd s1,
        bind_loop_refused refused ts minus_one s2,
      )

  -- With data that fit and a buffer of its size, a client whose buffers do not overflow reports
  -- success exactly where its message was sent whole and the answer was read whole.
  pub client_talk_reports :
      (fd : ℤ) (local_dest rem_dest : ConnectInfo) (l : Locals) (s : Sys W) {done : Bool}
      {info : ConnectInfo}
      → Fits local_dest
      → length l.msg ≡ msg_size
      → (client_talk n fd local_dest rem_dest l s).0 ≡ some (done, info)
      → let (sent, w) = n.write fd (text_of local_dest) s.world in
        done ≡ (eq_int sent msg_size && is_full (n.read fd msg_size w).0)
  unfolding client_talk
  client_talk_reports fd local_dest rem_dest l s fits sized h =
      ground (arith, format_msg_lem local_dest l.msg fits sized)

  -- With data that fit and a buffer of its size, a server whose buffers do not overflow reports
  -- failure exactly where it read a whole message and could not send its answer whole: where the
  -- message falls short it reports success, with the structure as it was.
  pub server_talk_reports :
      (fd : ℤ) (local_dest rem_dest : ConnectInfo) (l : Locals) (s : Sys W) {done : Bool}
      {info : ConnectInfo}
      → Fits local_dest
      → length l.msg ≡ msg_size
      → (server_talk n fd local_dest rem_dest l s).0 ≡ some (done, info)
      → let (message, w) = n.read fd msg_size s.world in
        (done ≡ (not (is_full message) || eq_int (n.write fd (text_of local_dest) w).0 msg_size))
        × ((if is_full message then rem_dest else info) ≡ rem_dest)
  unfolding server_talk
  server_talk_reports fd local_dest rem_dest l s fits sized h =
      let message = (n.read fd msg_size s.world).0 in
      elim (Bool-cases (is_full message)) [
        | inl e ↦ ground (
          arith,
          format_msg_lem local_dest (buffer_after message l.msg) fits
              (length-buffer_after_full message l.msg sized e),
        )
        | inr e ↦ ground arith
      ]

-- ===== src/Rlib/Paired.antt =====
-- The names under which the clients ask and the servers offer.
use nvm_rdma_examples.Prelude.{ℕ, Option, some, ◌≡◌, arith, Option-cases, inl, inr, All}
use nvm_rdma_examples.Prelude.Int.{pos}
use nvm_rdma_examples.Text.Digits.{Bytes}
use nvm_rdma_examples.Os.{Os, bind_to_core}
use nvm_rdma_examples.Region.{Mapping, nvm_create, dram_create}
use nvm_rdma_examples.Rlib.Interface.{Rlib, Event, Tool}
use nvm_rdma_examples.Rlib.ReadWrite.{
  client_qp, reg_name, mem_size, open_nic, connect_rc, bind_regions, write_and_delete,
  readwrite_client, register_nic, register_mem, readwrite_server,
}
use nvm_rdma_examples.Rlib.Nvm.{nvm_bytes, dram_bytes, nvm_server, nvm_client_thread}

-- A call that asks the server, or registers at the server, does so under one name,
-- and a region that is registered has the 1024 bytes of a new memory.
abbrev pub Names : ℕ → Event → Type 0
Names name (Event.asked_rc qp_name nic_name code key) = nic_name ≡ name
Names name (Event.fetched mem_name code) = mem_name ≡ name
Names name (Event.registered_nic nic_name done) = nic_name ≡ name
Names name (Event.registered_mr mem_name mem size done) = (mem_name ≡ name) × (size ≡ mem_size)
Names name _ = Unit {0}

abbrev pub AllName : {W : Type 0} → ℕ → Tool W → Type 0
AllName name t = All (Names name) t.events

module _ {W : Type 0} (r : Rlib W) where
  open_nic-AllName :
      (name idx : ℕ) (t : Tool W) → AllName name t → AllName name (open_nic r idx t).1
  unfolding open_nic
  open_nic-AllName name idx t h = ground (arith, h)

  connect_rc-AllName :
      (qp_name : Bytes) (qp name : ℕ) (t : Tool W)
      → AllName name t
      → AllName name (connect_rc r qp_name qp name t).1
  unfolding connect_rc
  connect_rc-AllName qp_name qp name t h = ground (arith, h)

  bind_regions-AllName :
      (qp nic : ℕ) (mem : Option ℕ) (size name : ℕ) (t : Tool W)
      → AllName name t
      → AllName name (bind_regions r qp nic mem size name t).1
  unfolding bind_regions
  bind_regions-AllName qp nic mem size name t h = ground (arith, h)

  write_and_delete-AllName :
      (name qp addr key : ℕ) (t : Tool W)
      → AllName name t
      → AllName name (write_and_delete r qp addr key t).1
  unfolding write_and_delete
  write_and_delete-AllName name qp addr key t h = ground (arith, h)

  register_nic-AllName :
      (name nic : ℕ) (t : Tool W) → AllName name t → AllName name (register_nic r name nic t).1
  unfolding register_nic
  register_nic-AllName name nic t h = ground (arith, h)

  register_mem-AllName :
      (name : ℕ) (t : Tool W) → AllName name t → AllName name (register_mem r name name t).1
  unfolding register_mem
  register_mem-AllName name t h = ground (arith, h)

  readwrite_client-AllName :
      (t : Tool W) → AllName reg_name t → AllName reg_name (readwrite_client r t).1
  unfolding readwrite_client
  readwrite_client-AllName t h =
      let (o1, t1) = open_nic r 1 t in
      let h1 = open_nic-AllName reg_name 1 t h in
      elim (Option-cases o1) [
        | inl e ↦ ground (arith, h1)
        | inr (nic, e) ↦
            let (made, w2) = r.create_rc nic t1.world in
            let t2 : Tool W = record t1 { world = w2 } in
            elim (Option-cases made) [
              | inl e2 ↦ ground (arith, h1)
              | inr (qp, e2) ↦
                  let (o3, t3) = connect_rc r client_qp qp reg_name t2 in
                  let h3 = connect_rc-AllName client_qp qp reg_name t2 h1 in
                  elim (Option-cases o3) [
                    | inl e3 ↦ ground (arith, h3)
                    | inr (key, e3) ↦
                        let (mem, w4) = r.new_mem mem_size t3.world in
                        let t4 : Tool W = record t3 { world = w4 } in
                        let (o5, t5) = bind_regions r qp nic mem mem_size reg_name t4 in
                        let h5 = bind_regions-AllName qp nic mem mem_size reg_name t4 h3 in
                        elim (Option-cases o5) [
                          | inl e5 ↦ ground (arith, h5)
                          | inr (u, e5) ↦ elim (Option-cases mem) [
                            | inl e6 ↦ ground (arith, h5)
                            | inr (addr, e6) ↦
                                ground (arith, write_and_delete-AllName reg_name qp addr key t5 h5)
                          ]
                        ]
                  ]
            ]
      ]

  readwrite_server-AllName :
      (t : Tool W) → AllName reg_name t → AllName reg_name (readwrite_server r t).1
  unfolding readwrite_server
  readwrite_server-AllName t h =
      let (o1, t1) = open_nic r 1 t in
      let h1 = open_nic-AllName reg_name 1 t h in
      elim (Option-cases o1) [
        | inl e ↦ ground (arith, h1)
        | inr (nic, e) ↦
            let (o2, t2) = register_nic r reg_name nic t1 in
            let h2 = register_nic-AllName reg_name nic t1 h1 in
            elim (Option-cases o2) [
              | inl e2 ↦ ground (arith, h2)
              | inr (u2, e2) ↦
                  let (o3, t3) = register_mem r reg_name reg_name t2 in
                  let h3 = register_mem-AllName reg_name t2 h2 in
                  elim (Option-cases o3) [
                    | inl e3 ↦ ground (arith, h3)
                    | inr (u3, e3) ↦ ground (arith, h3)
                  ]
            ]
      ]

  -- The client and the server of readwrite agree: whatever rlib answers, the client asks for devices and regions
  -- under the name 73 alone, and that is the name of the device and of the region of 1024 bytes that the
  -- server registers.
  pub readwrite_names :
      (client server : Tool W)
      → AllName reg_name client
      → AllName reg_name server
      → AllName reg_name (readwrite_client r client).1
        × AllName reg_name (readwrite_server r server).1
  readwrite_names client server h k =
      (readwrite_client-AllName client h, readwrite_server-AllName server k)

module _ {W : Type 0} (r : Rlib W) (m : Mapping W) (os : Os W) where
  nvm_server-AllName : (t : Tool W) → AllName reg_name t → AllName reg_name (nvm_server r m t).1
  unfolding nvm_server
  nvm_server-AllName t h =
      let (o1, t1) = open_nic r 1 t in
      let h1 = open_nic-AllName r reg_name 1 t h in
      elim (Option-cases o1) [
        | inl e ↦ ground (arith, h1)
        | inr (nic, e) ↦
            let (o2, t2) = register_nic r reg_name nic t1 in
            let h2 = register_nic-AllName r reg_name nic t1 h1 in
            elim (Option-cases o2) [
              | inl e2 ↦ ground (arith, h2)
              | inr (u2, e2) ↦
                  let (created, w3) = nvm_create m nvm_bytes t2.world in
                  let t3 : Tool W = record t2 { world = w3 } in
                  elim (Option-cases created) [
                    | inl e3 ↦ ground (arith, h2)
                    | inr (region, e3) ↦
                        let h4 = register_mem-AllName r reg_name t3 h2 in
                        elim (Option-cases (register_mem r reg_name reg_name t3).0) [
                          | inl e4 ↦ ground (arith, h4)
                          | inr (u4, e4) ↦ ground (arith, h4)
                        ]
                  ]
            ]
      ]

  nvm_client_thread-AllName :
      (qp_name : Bytes) (thread_id : ℕ) (t : Tool W)
      → AllName 1 t
      → AllName 1 (nvm_client_thread r m os qp_name thread_id t).1
  unfolding nvm_client_thread
  nvm_client_thread-AllName qp_name thread_id t h =
      let (made, w1) = dram_create m dram_bytes t.world in
      let (bound, w2) = bind_to_core os (pos thread_id) w1 in
      let t2 : Tool W = record t { world = w2 } in
      elim (Option-cases made) [
        | inl e ↦ ground (arith, h)
        | inr (region, e) ↦ elim (Option-cases bound) [
          | inl e2 ↦ ground (arith, h)
          | inr (x, e2) ↦
              let (o3, t3) = open_nic r 1 t2 in
              let h3 = open_nic-AllName r 1 1 t2 h in
              elim (Option-cases o3) [
                | inl e3 ↦ ground (arith, h3)
                | inr (nic, e3) ↦
                    let (created, w4) = r.create_rc nic t3.world in
                    let t4 : Tool W = record t3 { world = w4 } in
                    elim (Option-cases created) [
                      | inl e4 ↦ ground (arith, h3)
                      | inr (qp, e4) ↦
                          let (o5, t5) = connect_rc r qp_name qp 1 t4 in
                          let h5 = connect_rc-AllName r qp_name qp 1 t4 h3 in
                          elim (Option-cases o5) [
                            | inl e5 ↦ ground (arith, h5)
                            | inr (key, e5) ↦ ground (
                              arith,
                              bind_regions-AllName r qp nic (some region.addr) region.sz 1 t5 h5,
                            )
                          ]
                    ]
              ]
        ]
      ]

  -- The client and the server of nvm_write use different names: whatever rlib answers, a thread of the
  -- client asks for the device and the region under the name 1 alone, while the server registers its
  -- device and its region under the name 73 alone, and no region but one of 1024 bytes.
  pub nvm_names :
      (qp_name : Bytes) (thread_id : ℕ) (client server : Tool W)
      → AllName 1 client
      → AllName reg_name server
      → AllName 1 (nvm_client_thread r m os qp_name thread_id client).1
        × AllName reg_name (nvm_server r m server).1
  nvm_names qp_name thread_id client server h k =
      (nvm_client_thread-AllName qp_name thread_id client h, nvm_server-AllName server k)

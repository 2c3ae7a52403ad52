-- ===== src/Client/Directory.antt =====
-- src/client/client.py: the peers that a client knows, whatever the registry sends it.
use blockchain_messaging_pro.Common.{
  ℕ, ◌≡◌, refl, sym, ap, ◌∙◌, subst, Bool, true, false, Option, none, some, List, [], ◌∷◌, Str,
  Bytes, codes, str_beq, str_beq_iff, str_eq, Bool-cases, Option-cases, Result-cases, inl, inr,
  Result, ok, err, ok-pair, runtime_error,
}
use blockchain_messaging_pro.Common.Dict
use blockchain_messaging_pro.Common.Dict.{Dict, IsUnique, put-IsUnique}
use blockchain_messaging_pro.Json.{Json, obj, Fields}
use blockchain_messaging_pro.Block.{str_at}
use blockchain_messaging_pro.Crypto.{Wallet}
use blockchain_messaging_pro.Frame.{ProtocolFrame, FrameType, data_frame, to_bytes}
use blockchain_messaging_pro.Handshake.{payload_fields, handshake_frame}
use blockchain_messaging_pro.Message.Packing.{Codecs}
use blockchain_messaging_pro.P2P.{read_frame}
use blockchain_messaging_pro.Registry.Server.{text_at}
use blockchain_messaging_pro.Client.{Client}
use blockchain_messaging_pro.Client.Registration.{
  client_handshake, listed, add_listed, take_list, send_registry, reads_hello, reads_ack,
  reads_list, learn_peers, await_registry, register_on, register,
}

-- every entry has the id that it stands under
abbrev pub HasIds : Dict Str Fields → Type 0
HasIds [] = Unit
HasIds ((id, peer) ∷ d) = (str_at peer (codes "peer_id") ≡ ok id) × HasIds d

abbrev pub IsDirectory : Dict Str Fields → Type 0
IsDirectory d = HasIds d × IsUnique d

put-HasIds :
    (d : Dict Str Fields) (id : Str) (peer : Fields)
    → str_at peer (codes "peer_id") ≡ ok id
    → HasIds d
    → HasIds (Dict.put d id peer)
unfolding Dict.put
put-HasIds [] id peer e h = (e, tt)
put-HasIds ((j, p) ∷ d) id peer e (f, h) = elim (Bool-cases (str_beq j id)) [
  | inl t ↦ rw (Dict.put, t) (e ∙ ap ok (sym ((str_beq_iff j id).0 t)), h)
  | inr t ↦ rw (Dict.put, t) (f, put-HasIds d id peer e h)
]

add_listed-IsDirectory :
    (peers : List Json) (known : Dict Str Fields)
    → IsDirectory known
    → IsDirectory (add_listed known peers).0
unfolding add_listed
add_listed-IsDirectory [] known h = h
add_listed-IsDirectory (obj peer ∷ rest) known (ids, unique) =
    elim (Result-cases (str_at peer (codes "peer_id"))) [
      | inl (id, e) ↦
          rw (add_listed, e)
            (add_listed-IsDirectory rest (Dict.put known id peer)
              (put-HasIds known id peer e ids, put-IsUnique known id peer unique))
      | inr (x, e) ↦ rw (add_listed, e) (ids, unique)
    ]
add_listed-IsDirectory (_ ∷ rest) known h = h

take_list-IsDirectory :
    (known : Dict Str Fields) (fs : Fields) → IsDirectory known → IsDirectory (take_list known fs).0
unfolding take_list
take_list-IsDirectory known fs h = elim (Option-cases (text_at fs (codes "type"))) [
  | inl e ↦ rw (take_list, e) h
  | inr (kind, e) ↦ elim (Bool-cases (str_beq kind (codes "peer_list"))) [
    | inr f ↦ rw (take_list, e, f) h
    | inl f ↦ elim (Option-cases (listed fs)) [
      | inl g ↦ rw (take_list, e, f, g) h
      | inr (peers, g) ↦ rw (take_list, e, f, g) (add_listed-IsDirectory peers known h)
    ]
  ]
]

module _ (k : Codecs) (accepts : ℕ → Bytes → Bool) where
  third_frame :
      (kind : FrameType) (payload : Result Fields) (known : Dict Str Fields)
      → IsDirectory known
      → let r : Dict Str Fields × Bool = elim kind [
        | data_frame ↦ elim payload [ err e ↦ (known, false) | ok fs ↦ take_list known fs ]
        | _ ↦ (known, true)
      ] in
        IsDirectory r.0
  third_frame data_frame (ok fs) known h = take_list-IsDirectory known fs h
  third_frame data_frame (err e) known h = h
  third_frame _ payload known h = h

  reads_list-IsDirectory :
      (known : Dict Str Fields) (input : Option Bytes)
      → IsDirectory known
      → IsDirectory (reads_list k accepts known input).0
  unfolding reads_list
  reads_list-IsDirectory known input h = elim (Result-cases (read_frame input)) [
    | inl (frame, e) ↦
        rw (reads_list, e) (third_frame frame.frame_type (payload_fields k frame) known h)
    | inr (x, e) ↦ rw (reads_list, e) h
  ]

  send_registry-peers :
      (c : Client) (ws : ℕ) (frame : ProtocolFrame)
      → (send_registry k accepts c ws frame).0.peers ≡ c.peers
  unfolding send_registry
  send_registry-peers c ws frame = elim (Result-cases (to_bytes frame)) [
    | inr (x, e) ↦ rw (send_registry, e) refl
    | inl (bytes, e) ↦ elim (Bool-cases (accepts ws bytes)) [
      | inl f ↦ rw (send_registry, e, f) refl
      | inr f ↦ rw (send_registry, e, f) refl
    ]
  ]

  learn_peers-IsDirectory :
      (c : Client) (ws : ℕ) (third : Option Bytes)
      → IsDirectory c.peers
      → IsDirectory (learn_peers k accepts c ws third).0.peers
  unfolding learn_peers
  learn_peers-IsDirectory c ws third h =
      let h' = reads_list-IsDirectory c.peers third h in
      elim (Bool-cases (reads_list k accepts c.peers third).1) [
        | inl e ↦ rw (learn_peers, e) (subst IsDirectory (sym (send_registry-peers _ ws _)) h')
        | inr e ↦ rw (learn_peers, e) h'
      ]

  await_registry-IsDirectory :
      (c : Client) (ws : ℕ) (first second third : Option Bytes)
      → IsDirectory c.peers
      → IsDirectory (await_registry k accepts c ws first second third).0.peers
  unfolding await_registry
  await_registry-IsDirectory c ws first second third h =
      elim (Bool-cases (reads_hello k accepts first)) [
        | inr e ↦ rw (await_registry, e) h
        | inl e ↦ elim (Option-cases (reads_ack k accepts second)) [
          | inl f ↦ rw (await_registry, e, f) h
          | inr (accepted, f) ↦ elim (Bool-cases accepted) [
            | inl g ↦ rw (await_registry, e, f, g) (learn_peers-IsDirectory c ws third h)
            | inr g ↦ rw (await_registry, e, f, g) h
          ]
        ]
      ]

  register_on-IsDirectory :
      (c : Client) (w : Wallet) (ws : ℕ) (first second third : Option Bytes)
      → IsDirectory c.peers
      → IsDirectory (register_on k accepts c w ws first second third).0.peers
  unfolding register_on
  register_on-IsDirectory c w ws first second third h =
      let start : Client = record c { registry_ws = some ws } in
      let hello = handshake_frame k (client_handshake w) in
      let h' : IsDirectory (send_registry k accepts start ws hello).0.peers =
        subst IsDirectory (sym (send_registry-peers start ws hello)) h in
      elim (Bool-cases (send_registry k accepts start ws hello).1) [
        | inl e ↦
            rw (register_on, e)
              (await_registry-IsDirectory (send_registry k accepts start ws hello).0 ws first second
                third h')
        | inr e ↦ rw (register_on, e) h'
      ]

  from_wallet :
      (w : Option Wallet) (c c' : Client) (opened : Option ℕ) (first second third : Option Bytes)
      (done : Bool)
      → IsDirectory c.peers
      → ◌≡◌ {A = Result (Client × Bool)}
          (elim w [
            | none ↦ err runtime_error
            | some x ↦ elim opened [
              | none ↦ ok (c, false)
              | some ws ↦ ok (register_on k accepts c x ws first second third)
            ]
          ])
          (ok (c', done))
      → IsDirectory c'.peers
  from_wallet none c c' opened first second third done h returned = cc
  from_wallet (some w) c c' none first second third done h returned =
      subst (λ x. IsDirectory x.peers) (ok-pair returned).0 h
  from_wallet (some w) c c' (some ws) first second third done h returned =
      subst (λ x. IsDirectory x.peers) (ok-pair returned).0
        (register_on-IsDirectory c w ws first second third h)

  -- Whatever the registry answers, and whether the call succeeds or not, a client that knows every
  -- peer once and under its own id does so after `register`.
  pub register-IsDirectory :
      (c c' : Client) (opened : Option ℕ) (first second third : Option Bytes) (done : Bool)
      → IsDirectory c.peers
      → register k accepts c opened first second third ≡ ok (c', done)
      → IsDirectory c'.peers
  unfolding register
  register-IsDirectory c c' opened first second third done h returned =
      from_wallet c.wallet c c' opened first second third done h returned

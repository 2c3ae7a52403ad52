-- ===== src/Tests/Talks.antt =====
-- A text and a file between two engines.
use blockchain_messaging_pro.Common.{
  ℕ, ◌≡◌, ◌≢◌, refl, inl, Bool, true, some, [], ◌∷◌, ◌++◌, Bytes, codes, encode, ok, length, ◌≤◌,
  arith, str_eq,
}
use blockchain_messaging_pro.Common.Dict
use blockchain_messaging_pro.Chain.State.{add_data}
use blockchain_messaging_pro.Frame.{data_of, to_bytes, code, pack_u32}
use blockchain_messaging_pro.Media.{document, MediaFile, read_chunks, to_media_info, get_chunk_size}
use blockchain_messaging_pro.Media.Transfer.{MediaTransfer, sends, completed, new_transfer}
use blockchain_messaging_pro.Message.{MessagePayload, to_dict}
use blockchain_messaging_pro.Message.Packing.{Codecs, IsBase64, message_to_bytes}
use blockchain_messaging_pro.Common.Dict.{get-put_same}
use blockchain_messaging_pro.Peers.{add, get}
use blockchain_messaging_pro.P2P.{attach, get_peer, connection_for}
use blockchain_messaging_pro.P2P.Exchange.{Travels}
use blockchain_messaging_pro.Crypto.Laws.{max_plain}
use blockchain_messaging_pro.Engine.{Engine, given, get_transfer}
use blockchain_messaging_pro.Engine.Secrets.{Trusts}
use blockchain_messaging_pro.Engine.Sending.{
  message_data, text_message, signed_by, send_text, file_message, complete_message,
}
use blockchain_messaging_pro.Engine.Receiving.{
  received_text, received_media, handle_incoming, receive,
}
use blockchain_messaging_pro.Engine.Texts.{sealed_text, text_arrives}
use blockchain_messaging_pro.Engine.Transfers.{chunk_messages, hear, file_arrives}
use blockchain_messaging_pro.Tests.{toy}
use blockchain_messaging_pro.Tests.Wallets.{
  plain_primitives, alice, bob, alice-bob-Agree, plain_codecs, peer_with, engine_of, a_stamp,
}

abbrev takes : ℕ → Bytes → Bool
takes ws bytes = true

abbrev hello : MessagePayload
hello =
    sealed_text plain_codecs plain_primitives takes (engine_of alice bob) bob (codes "bob")
      (codes "hi") a_stamp

-- MessagePack that reads back the one message
abbrev talk_codecs : Codecs
talk_codecs = record plain_codecs { unpackb = λ b. ok (to_dict (λ x. x) hello) }

talk_codecs-IsBase64 : IsBase64 talk_codecs
talk_codecs-IsBase64 = record { decodes = λ b. refl; not_empty = λ x xs. (x, xs, refl) }

abbrev hello_bytes : Bytes
hello_bytes = 66 ∷ 77 ∷ 80 ∷ 1 ∷ 1 ∷ 0 ∷ 0 ∷ 0 ∷ 1 ∷ 112 ∷ []

hello-Travels : Travels (data_of (message_to_bytes talk_codecs hello)) hello_bytes
unfolding data_of message_to_bytes to_bytes pack_u32 code
hello-Travels = record { written = refl; small = omega arith }

bob-Trusts : Trusts plain_primitives (engine_of alice bob) (peer_with bob) bob
unfolding given Dict.get
bob-Trusts = record { signing = refl; encryption = refl; cached = inl refl }

alice-Trusts : Trusts plain_primitives (engine_of bob alice) (peer_with alice) alice
unfolding given Dict.get
alice-Trusts = record { signing = refl; encryption = refl; cached = inl refl }

knows_bob : get_peer (engine_of alice bob).node (codes "bob") ≡ some (peer_with bob)
unfolding get_peer attach add get
knows_bob = get-put_same [] (codes "bob") (peer_with bob)

connected_bob : connection_for (engine_of alice bob).node (codes "bob") ≡ some 9
unfolding connection_for attach Dict.get Dict.put
connected_bob = refl

not_empty : (x : ℕ) (xs : Bytes) → x ∷ xs ≢ []
not_empty x xs e = cc

decodes_hi : talk_codecs.decode (encode (codes "hi")) ≡ some (codes "hi")
unfolding encode
decodes_hi = refl

hi_short : length (encode (codes "hi")) ≤ max_plain
unfolding encode
hi_short = omega arith

text_arrives_example :
    let a = engine_of alice bob in
    let b = engine_of bob alice in
    ((send_text talk_codecs plain_primitives takes a (codes "bob") (codes "hi") true a_stamp).1
      ≡ true)
    × ((send_text talk_codecs plain_primitives takes a
          (codes "bob")
          (codes "hi")
          true
          a_stamp).0.node.sent
        ≡ a.node.sent ++ ((9, hello_bytes) ∷ []))
    × ((send_text talk_codecs plain_primitives takes a
          (codes "bob")
          (codes "hi")
          true
          a_stamp).0.blockchain
        ≡ (add_data a.blockchain (message_data hello)).0)
    × ((receive talk_codecs plain_primitives takes toy b hello_bytes
          (peer_with alice)
          a_stamp).messages
        ≡ b.messages ++ (received_text hello (codes "hi") true ∷ []))
unfolding to_dict text_message signed_by
text_arrives_example =
    text_arrives talk_codecs plain_primitives takes (engine_of alice bob) (engine_of bob alice)
      (peer_with bob) (peer_with alice) (codes "bob") (codes "hi") a_stamp a_stamp 9 hello_bytes
      connected_bob hello-Travels refl talk_codecs-IsBase64 refl knows_bob bob-Trusts alice-Trusts
      alice-bob-Agree refl hi_short decodes_hi toy

abbrev a_file : MediaFile
a_file = record {
  filename = codes "a.txt";
  mime_type = codes "text/plain";
  media_type = document;
  size = 3;
  file_hash = toy (1 ∷ 2 ∷ 3 ∷ []);
  content = 1 ∷ 2 ∷ 3 ∷ [];
}

-- the state of the receiver after the announcement and the blocks, and the last message
abbrev last_message : MessagePayload
last_message =
    complete_message plain_codecs plain_primitives takes (engine_of alice bob) (codes "bob")
      (codes "t") a_file.file_hash a_stamp

abbrev filed : Engine
filed =
    let a = engine_of alice bob in
    let p = peer_with alice in
    let info = to_media_info a_file in
    let b1 =
      handle_incoming plain_codecs plain_primitives takes toy (engine_of bob alice)
        (file_message plain_codecs plain_primitives takes a (codes "bob") (codes "t") info a_stamp)
        p a_stamp in
    let b2 =
      hear plain_codecs plain_primitives takes toy b1 p (λ n. a_stamp) 0
        (chunk_messages plain_codecs plain_primitives takes toy a (codes "bob")
          (new_transfer (codes "t") info (codes "bob") sends) (some (7 ∷ [])) (λ n. a_stamp) 0
          (read_chunks a_file (some (get_chunk_size a_file.media_type)))) in
    handle_incoming plain_codecs plain_primitives takes toy b2 last_message p a_stamp

file_arrives_example :
    (t : MediaTransfer) × (get_transfer filed (codes "t") ≡ some t)
    × (t.status ≡ completed)
    × (t.content ≡ a_file.content)
    × (t.chunks_completed ≡ (to_media_info a_file).chunk_count)
    × (filed.files
        ≡ (engine_of bob alice).files ++ (received_media last_message t (codes "t") true ∷ []))
file_arrives_example =
    file_arrives plain_codecs plain_primitives takes toy (engine_of alice bob) (engine_of bob alice)
      (peer_with alice) (codes "bob") (codes "t") a_file (λ n. a_stamp) (λ n. a_stamp) a_stamp
      a_stamp a_stamp a_stamp refl refl (not_empty 1 (2 ∷ 3 ∷ [])) (not_empty b't' []) (λ n. refl)
      alice-Trusts alice-bob-Agree

-- ===== src/Engine/Runs.antt =====
-- src/engine/engine.py: the engine over time. Its calls and the messages that reach it come in any
-- order; what else happens to the peer-to-peer node is a step of its own.
use blockchain_messaging_pro.Common.{ℕ, Bool, Str, Bytes}
use blockchain_messaging_pro.Crypto.{Primitives}
use blockchain_messaging_pro.Media.{PathFacts}
use blockchain_messaging_pro.Message.Packing.{Codecs}
use blockchain_messaging_pro.Peers.{Peer}
use blockchain_messaging_pro.P2P.{P2PNode}
use blockchain_messaging_pro.Engine.{Engine, Stamp, mine_pending}
use blockchain_messaging_pro.Engine.Sending.{send_text, broadcast_text, send_file}
use blockchain_messaging_pro.Engine.Receiving.{receive}

module _ (sha256 : Bytes → Str) (k : Codecs) (c : Primitives) (accepts : ℕ → Bytes → Bool) where
  -- one call of the engine, or one message that reaches it
  pub data Step (s : Engine) : Engine → Type 0 where
    texting :
        (recipient_id message : Str) (encrypted : Bool) (st : Stamp)
        → Step s (send_text k c accepts s recipient_id message encrypted st).0
    broadcasting : (message : Str) (st : Stamp) → Step s (broadcast_text k c accepts s message st).0
    filing :
        (recipient_id : Str) (path : PathFacts) (encrypted : Bool) (transfer_id : Str)
        (stamps : ℕ → Stamp) (first last : Stamp)
        → Step s
            (send_file k c accepts sha256 s recipient_id path encrypted transfer_id stamps first
              last).0
    receiving :
        (input : Bytes) (p : Peer) (st : Stamp) → Step s (receive k c accepts sha256 s input p st)
    mining : (fuel : ℕ) (now : Str) → Step s (mine_pending sha256 fuel now s).0
    networking : (n : P2PNode) → Step s (record s { node = n })

  -- the states that come up between the calls
  pub data Reach (s : Engine) : Engine → Type 0 where
    here : Reach s s
    next : {t u : Engine} → Reach s t → Step t u → Reach s u

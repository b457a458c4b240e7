-- ===== src/Receiver/Reaches.antt =====
-- A request takes a reachable database of Store/Steps.antt to a reachable one.
use sage_wiki_bridge_wxo.Base.{ℕ}
use sage_wiki_bridge_wxo.Text.{Text}
use sage_wiki_bridge_wxo.Wechat.Message.{RawWechatMessage, XmlReader}
use sage_wiki_bridge_wxo.Wechat.Primitives.{Primitives}
use sage_wiki_bridge_wxo.Store.Schema.{Db}
use sage_wiki_bridge_wxo.Store.Steps.{Reach, step, whitelist_step, insert_step, create_step}
use sage_wiki_bridge_wxo.Receiver.Process.{ReceiverConfig, Surroundings, World}
use sage_wiki_bridge_wxo.Receiver.Callback.{CallbackQuery, receive_callback}
use sage_wiki_bridge_wxo.Receiver.Runs.{
  RequestRun, nothing, stored, joined, queued, receive_callback-RequestRun,
}

module _ (p : Primitives) (config : ReceiverConfig) (out : Surroundings) {requeues : ℕ} where
  -- What a request does is a sequence of queries of `Step`.
  RequestRun-Reach :
      {db db' : Db} → RequestRun p config out db db' → Reach requeues db → Reach requeues db'
  RequestRun-Reach (nothing e) r = rw e r
  RequestRun-Reach (stored m i d e) r = rw e (step r (insert_step _ _ _))
  RequestRun-Reach (joined m i d _ e) r =
      rw e (step (step r (insert_step _ _ _)) (whitelist_step _ _ _ _))
  RequestRun-Reach (queued m i d id _ _ _ _ _ e) r =
      rw e (step (step r (insert_step _ _ _)) (create_step _ _ _ _))

  pub receive_callback-Reach :
      (from_str : XmlReader RawWechatMessage) (envelope_from_str : XmlReader Text)
      (query : CallbackQuery) (body : Text) (w : World)
      → Reach requeues w.db
      → Reach requeues (receive_callback p from_str envelope_from_str config out query body w).1.db
  receive_callback-Reach from_str envelope_from_str query body w =
      RequestRun-Reach
        (receive_callback-RequestRun p config out from_str envelope_from_str query body w)

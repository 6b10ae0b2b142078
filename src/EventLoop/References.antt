-- ===== src/EventLoop/References.antt =====
-- `IncRef` and `DecRef` of src/event_loop.h, on a handler that is alive.
use hcproxy.Common.{◌+◌, ◌-◌, ◌<◌, ◌≡◌, ◌≢◌, arith, false, true, Outcome, ok}
use hcproxy.NodeList.{Ptr, null}
use hcproxy.EventLoop.{EventLoop, set_handler, deref, inc_ref, dec_ref}

module _ {X : Type 0} where
  pub deref-ok :
      (p : Ptr) (w : EventLoop X)
      → p ≢ null
      → (w.handlers p).freed ≡ false
      → deref p w ≡ ok (w.handlers p)
  unfolding deref
  deref-ok p w h f = ground arith

  pub inc_ref-ok :
      (p : Ptr) (w : EventLoop X)
      → p ≢ null
      → (w.handlers p).freed ≡ false
      → inc_ref p w
        ≡ ok (set_handler p (record (w.handlers p) { ref_count = (w.handlers p).ref_count + 1 }) w)
  unfolding inc_ref
  inc_ref-ok p w h f = rw (deref-ok p w h f)

  module _ (destroy : X → Outcome X) (p : Ptr) (w : EventLoop X) where
    -- Not the last reference: it is counted down.
    pub dec_ref-keep :
        p ≢ null
        → (w.handlers p).freed ≡ false
        → 1 < (w.handlers p).ref_count
        → dec_ref destroy p w
          ≡ ok
              (set_handler p (record (w.handlers p) { ref_count = (w.handlers p).ref_count - 1 }) w)
    unfolding dec_ref
    dec_ref-keep h f r = rw (deref-ok p w h f) (ground arith)

    -- The last reference: the handler is deleted.
    pub dec_ref-last :
        (x : X)
        → p ≢ null
        → (w.handlers p).freed ≡ false
        → (w.handlers p).ref_count ≡ 1
        → (w.handlers p).registered ≡ false
        → destroy (w.handlers p).derived ≡ ok x
        → dec_ref destroy p w
          ≡ ok
              (set_handler p (record (w.handlers p) { ref_count = 0; freed = true; derived = x }) w)
    unfolding dec_ref
    dec_ref-last x h f r g d = rw (deref-ok p w h f) (ground arith)

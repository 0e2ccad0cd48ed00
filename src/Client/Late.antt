-- ===== src/Client/Late.antt =====
-- live/client.ts: a resize's acknowledgement that arrives after the call of `close`.
use floeterm.Common.{◌≡◌, refl, sym, ap, ◌∙◌, subst, if_true, if_false, true, false, Option, some}
use floeterm.Common.Sets.{contains}
use floeterm.Common.Fallible.{ok}
use floeterm.Live.Bytes.{Bytes}
use floeterm.Live.Frame.{Frame, FrameType}
use floeterm.Live.Messages.{ResizeApplied, decode_resize_applied}
use floeterm.Client.State.{
  connection_closed, unexpected_acknowledgement, Connection, stream_closed, report,
  reject_resize_waiters, close, fail,
}
use floeterm.Client.Frames.{
  with_value, thrown, handle_resize_applied, handle_type, handle_frame, continue_reading, receive,
}

module _ {Text : Type 0} (decode_text : Bytes → Option Text) where
  abbrev closing : Connection Text → Connection Text
  closing c =
      report stream_closed (reject_resize_waiters connection_closed (record c { closed = true }))

  refused :
      (applied : ResizeApplied) (c : Connection Text)
      → handle_resize_applied applied (closing c) ≡ (some unexpected_acknowledgement, closing c)
  unfolding handle_resize_applied reject_resize_waiters contains
  refused applied c = refl

  -- The caller closes a connection whose read loop waits for a frame, and the frame is a well-formed
  -- acknowledgement of a resize, whether or not one was asked for. Then the connection fails, as
  -- though the server had broken the protocol.
  pub close_acknowledged :
      (frame : Frame) (applied : ResizeApplied) (c : Connection Text)
      → frame.type ≡ FrameType.resize_applied
      → decode_resize_applied frame ≡ ok applied
      → c.closed ≡ false
      → c.reading ≡ true
      → receive decode_text frame (close c) ≡ fail unexpected_acknowledgement (close c)
  unfolding close receive handle_frame handle_type thrown continue_reading reject_resize_waiters
  close_acknowledged frame applied c type decoded is_open reads =
      subst (λ d. receive decode_text frame d ≡ fail unexpected_acknowledgement d)
        (sym (if_false c.closed _ _ is_open))
        (if_true c.reading _ _ reads
          ∙ ap (λ t. continue_reading decode_text (handle_type decode_text t frame (closing c)))
              type
          ∙ ap
              (λ o.
                continue_reading decode_text
                  (with_value (thrown o) (closing c) (λ a. handle_resize_applied a (closing c))))
              decoded
          ∙ ap (continue_reading decode_text) (refused applied c))

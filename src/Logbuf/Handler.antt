-- ===== src/Logbuf/Handler.antt =====
-- internal/logbuf/logbuf.go: the handler that mirrors every record of the log into the buffer. The handler
-- that it wraps is a parameter of the package log/slog; the texts of a time, a level and a value are
-- formatted by the library and stand in the record.
use auto_tunnel.Prelude.{◌≡◌, refl, Bool, Option, List, [], ◌∷◌, ◌++◌, append_assoc}
use auto_tunnel.Text.{Bytes}
use auto_tunnel.Ui.View.{pad_right}
use auto_tunnel.Logbuf.{Buffer, add}

pub record Attr : Type 0 where
  pub key : Bytes
  pub value : Bytes

-- slog.Record, with its time as it is to be shown.
pub record LogRecord : Type 0 where
  pub time : Bytes
  pub level : Bytes
  pub message : Bytes
  pub attrs : List Attr

-- slog.Handler, of the handlers that another package implements.
pub record Sink (I : Type 0) : Type 0 where
  pub is_enabled : I → Bytes → Bool
  pub handles : I → LogRecord → Option Bytes
  pub takes_attrs : I → List Attr → I
  pub takes_group : I → Bytes → I

pub record Handler (I : Type 0) : Type 0 where
  pub inner : I
  pub attrs : List Attr
  pub group : Bytes

unfoldable pub attr_texts : List Attr → Bytes
attr_texts [] = []
attr_texts (a ∷ attrs) = b' ' ∷ (a.key ++ b'=' ∷ (a.value ++ attr_texts attrs))

module _ {I : Type 0} (sink : Sink I) where
  unfoldable pub new_handler : I → Handler I
  new_handler inner = record { inner = inner; attrs = []; group = [] }

  unfoldable pub handler_enabled : Handler I → Bytes → Bool
  handler_enabled h level = sink.is_enabled h.inner level

  -- Handler.render
  unfoldable pub log_line : Handler I → LogRecord → Bytes
  unfolding attr_texts pad_right
  log_line h r =
      r.time
      ++ b' '
        ∷ (pad_right 5 r.level ++ b' ' ∷ (r.message ++ (attr_texts h.attrs ++ attr_texts r.attrs)))

  unfoldable pub handle_record : Handler I → LogRecord → Buffer → Buffer × Option Bytes
  unfolding log_line add
  handle_record h r b = (add (log_line h r) b, sink.handles h.inner r)

  unfoldable pub with_attrs : List Attr → Handler I → Handler I
  with_attrs attrs h = record h { inner = sink.takes_attrs h.inner attrs; attrs = h.attrs ++ attrs }

  unfoldable pub with_group : Bytes → Handler I → Handler I
  with_group name h = record h { inner = sink.takes_group h.inner name; group = name }

  attr_texts-append : (xs ys : List Attr) → attr_texts (xs ++ ys) ≡ attr_texts xs ++ attr_texts ys
  unfolding attr_texts
  attr_texts-append [] ys = refl
  attr_texts-append (a ∷ xs) ys = simp (attr_texts-append xs ys, append_assoc)

  -- Attributes that are set on a handler are written as if they stood in front of the record's own,
  -- whatever group was opened before.
  pub log_line-with_attrs :
      (attrs : List Attr) (name : Bytes) (h : Handler I) (r : LogRecord)
      → log_line (with_attrs attrs (with_group name h)) r
        ≡ log_line h (record r { attrs = attrs ++ r.attrs })
  unfolding log_line with_attrs with_group
  log_line-with_attrs attrs name h r =
      simp (attr_texts-append h.attrs attrs, attr_texts-append attrs r.attrs, append_assoc)

-- ===== src/App/Events/Event.antt =====
-- `AppEvent`, the values that the `fire…` functions give it, and the typed callback of each kind.
-- Text is a list of bytes, a signed number its bit pattern, a `double` its 64 bits.
use mari_paint.Prelude.{
  ℕ, ◌^◌, ◌≡◌, ◌≤◌, ◌<◌, ◌⊎◌, refl, arith, Bool, false, List, [], ltb, leb, ◌&&◌, if◌then◌else◌,
}

pub data PasteSource : Type 0 where
  unknown clipboard file drag_drop script internal : PasteSource

pub data AppEventKind : Type 0 where
  document_opened document_saved canvas_snapshot view_changed paste undo layer_changed
        stroke_completed progress :
      AppEventKind

pub record AppEvent : Type 0 where
  pub kind : AppEventKind
  pub seq : ℕ
  pub path : List ℕ
  pub hash : List ℕ
  pub change : List ℕ
  pub width : ℕ
  pub height : ℕ
  pub size_bytes : ℕ
  pub zoom : ℕ
  pub rotation_deg : ℕ
  pub source : PasteSource
  pub steps : ℕ
  pub layer_id : ℕ
  pub first_seq : ℕ
  pub last_seq : ℕ
  pub point_count : ℕ
  pub fraction : ℕ
  pub done : Bool

-- The bits of 1.0 and of the infinities.
abbrev pub one_bits : ℕ
one_bits = 0x3FF0000000000000

abbrev pub infinity_bits : ℕ
infinity_bits = 0x7FF0000000000000

abbrev pub minus_infinity_bits : ℕ
minus_infinity_bits = 0xFFF0000000000000

-- The default values of the struct.
abbrev pub empty_event : AppEvent
empty_event = record {
  kind = AppEventKind.progress;
  seq = 0;
  path = [];
  hash = [];
  change = [];
  width = 0;
  height = 0;
  size_bytes = 0;
  zoom = one_bits;
  rotation_deg = 0;
  source = PasteSource.unknown;
  steps = 0;
  layer_id = 0;
  first_seq = 0;
  last_seq = 0;
  point_count = 0;
  fraction = 0;
  done = false;
}

-- `x < 0.0` and `x > 1.0` for a `double`, on its bits: false for the patterns that are no number.
unfoldable pub below_zero : ℕ → Bool
below_zero x = ltb (2 ^ 63) x && leb x minus_infinity_bits

unfoldable pub above_one : ℕ → Bool
above_one x = ltb one_bits x && leb x infinity_bits

-- The cut of `fireProgress`.
unfoldable pub cut_fraction : ℕ → ℕ
unfolding below_zero above_one
cut_fraction x = if below_zero x then 0 else (if above_one x then one_bits else x)

-- The argument of one call of a `fire…` function.
pub data Fire : Type 0 where
  document_opened : List ℕ → List ℕ → ℕ → ℕ → Fire
  document_saved : List ℕ → List ℕ → ℕ → Fire
  canvas_snapshot : List ℕ → Fire
  view_changed : ℕ → ℕ → Fire
  paste : PasteSource → Fire
  undo : ℕ → Fire
  layer_changed : ℕ → List ℕ → Fire
  stroke_completed : ℕ → ℕ → ℕ → ℕ → Fire
  progress : List ℕ → ℕ → Bool → Fire

-- The event that it dispatches, before the number is given.
unfoldable pub event_of : Fire → AppEvent
unfolding cut_fraction
event_of (document_opened path hash w h) = record empty_event {
  kind = AppEventKind.document_opened;
  path = path;
  hash = hash;
  width = w;
  height = h;
}
event_of (document_saved path hash size) = record empty_event {
  kind = AppEventKind.document_saved;
  path = path;
  hash = hash;
  size_bytes = size;
}
event_of (canvas_snapshot hash) = record empty_event {
  kind = AppEventKind.canvas_snapshot;
  hash = hash;
}
event_of (view_changed zoom rotation) = record empty_event {
  kind = AppEventKind.view_changed;
  zoom = zoom;
  rotation_deg = rotation;
}
event_of (paste source) = record empty_event { kind = AppEventKind.paste; source = source }
event_of (undo steps) = record empty_event { kind = AppEventKind.undo; steps = steps }
event_of (layer_changed id change) = record empty_event {
  kind = AppEventKind.layer_changed;
  layer_id = id;
  change = change;
}
event_of (stroke_completed id first last points) = record empty_event {
  kind = AppEventKind.stroke_completed;
  layer_id = id;
  first_seq = first;
  last_seq = last;
  point_count = points;
}
event_of (progress task fraction done) = record empty_event {
  kind = AppEventKind.progress;
  change = task;
  fraction = cut_fraction fraction;
  done = done;
}

-- A call that a listener gets: the typed callbacks, and `onEvent`.
pub data ListenerCall : Type 0 where
  typed : Fire → ListenerCall
  on_event : AppEvent → ListenerCall

-- `callTyped`: the callback of the kind, with the fields that it takes.
unfoldable pub typed_call : AppEventKind → AppEvent → Fire
typed_call AppEventKind.document_opened e = document_opened e.path e.hash e.width e.height
typed_call AppEventKind.document_saved e = document_saved e.path e.hash e.size_bytes
typed_call AppEventKind.canvas_snapshot e = canvas_snapshot e.hash
typed_call AppEventKind.view_changed e = view_changed e.zoom e.rotation_deg
typed_call AppEventKind.paste e = paste e.source
typed_call AppEventKind.undo e = undo e.steps
typed_call AppEventKind.layer_changed e = layer_changed e.layer_id e.change
typed_call AppEventKind.stroke_completed e =
    stroke_completed e.layer_id e.first_seq e.last_seq e.point_count
typed_call AppEventKind.progress e = progress e.change e.fraction e.done

-- What a listener's typed callback should get: the fire's arguments, a fraction cut.
unfoldable pub as_fired : Fire → Fire
unfolding cut_fraction
as_fired (progress task fraction done) = progress task (cut_fraction fraction) done
as_fired f = f

-- Whatever is fired, the callback of its kind gets what was fired, a fraction cut.
pub typed_call-event_of :
    (f : Fire) (n : ℕ) → typed_call (event_of f).kind (record (event_of f) { seq = n }) ≡ as_fired f
unfolding typed_call event_of as_fired
typed_call-event_of (document_opened path hash w h) n = refl
typed_call-event_of (document_saved path hash size) n = refl
typed_call-event_of (canvas_snapshot hash) n = refl
typed_call-event_of (view_changed zoom rotation) n = refl
typed_call-event_of (paste source) n = refl
typed_call-event_of (undo steps) n = refl
typed_call-event_of (layer_changed id change) n = refl
typed_call-event_of (stroke_completed id first last points) n = refl
typed_call-event_of (progress task fraction done) n = refl

-- Of the patterns of 64 bits, a fraction from 0 to 1 (or minus zero) stays, one below 0 becomes 0,
-- one above 1 becomes 1, and a pattern that is no number stays.
pub cut_fraction_lem :
    (x : ℕ)
    → x < 2 ^ 64
    → (x ≤ one_bits × cut_fraction x ≡ x)
      ⊎ (x ≡ 2 ^ 63 × cut_fraction x ≡ x)
      ⊎ (2 ^ 63 < x × x ≤ minus_infinity_bits × cut_fraction x ≡ 0)
      ⊎ (one_bits < x × x ≤ infinity_bits × cut_fraction x ≡ one_bits)
      ⊎ (infinity_bits < x × x < 2 ^ 63 × cut_fraction x ≡ x)
      ⊎ (minus_infinity_bits < x × cut_fraction x ≡ x)
unfolding cut_fraction
cut_fraction_lem x h = ground arith

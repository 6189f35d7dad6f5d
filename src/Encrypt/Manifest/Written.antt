-- ===== src/Encrypt/Manifest/Written.antt =====
-- src/encrypt.rs and src/manifest.rs: the manifest that is written, as the reader's events.
use odf_crypto.Prelude.{some, List, [], ◌∷◌, ◌≡◌, refl, Str, All}
use odf_crypto.Manifest.Parse.{XmlEvent, RawAttr, attr, collect_attrs, on_event}
use odf_crypto.Manifest.Parse.Run.{run}
use odf_crypto.Manifest.Import.{Import}
use odf_crypto.Manifest.Element.{start_element, end_element}
use odf_crypto.Encrypt.Manifest.{WriterEvent, decl, start, empty, end, Attrs}
use odf_crypto.Encrypt.Manifest.Escape.{escaped, IsStable, normalize-escaped}

abbrev pub read_attrs : Attrs → List RawAttr
read_attrs [] = []
read_attrs ((key, value) ∷ attrs) = attr key (some (escaped value)) ∷ read_attrs attrs

-- The events of a reader that expands empty elements, over what a writer wrote that escapes
-- attribute values.
unfoldable pub read_back : List WriterEvent → List XmlEvent
read_back [] = []
read_back (decl version encoding ∷ events) = XmlEvent.other ∷ read_back events
read_back (start name attrs ∷ events) = XmlEvent.start name (read_attrs attrs) ∷ read_back events
read_back (empty name attrs ∷ events) =
    XmlEvent.start name (read_attrs attrs) ∷ XmlEvent.end name ∷ read_back events
read_back (end name ∷ events) = XmlEvent.end name ∷ read_back events

-- The importer over the events that are written, with attributes as they were before the writer.
abbrev pub import_event : Import → WriterEvent → Import
import_event s (decl version encoding) = s
import_event s (start name attrs) = start_element s name attrs
import_event s (empty name attrs) = end_element (start_element s name attrs) name
import_event s (end name) = end_element s name

abbrev pub import_events : Import → List WriterEvent → Import
import_events s [] = s
import_events s (e ∷ events) = import_events (import_event s e) events

abbrev pub HasStable : Str × Str → Type 0
HasStable (key, value) = All IsStable value

abbrev pub IsWritable : WriterEvent → Type 0
IsWritable (start name attrs) = All HasStable attrs
IsWritable (empty name attrs) = All HasStable attrs
IsWritable _ = Unit

collect_attrs-read_attrs :
    (attrs : Attrs) → All HasStable attrs → collect_attrs (read_attrs attrs) ≡ some attrs
unfolding collect_attrs
collect_attrs-read_attrs [] h = refl
collect_attrs-read_attrs ((key, value) ∷ attrs) h =
    rw (collect_attrs-read_attrs attrs h.1, normalize-escaped value h.0) refl

pub run-read_back :
    (s : Import) (events : List WriterEvent)
    → All IsWritable events
    → run s (read_back events) ≡ some (import_events s events)
unfolding run read_back on_event
run-read_back s [] h = refl
run-read_back s (decl version encoding ∷ events) h = run-read_back s events h.1
run-read_back s (start name attrs ∷ events) h =
    rw (run, read_back, collect_attrs-read_attrs attrs h.0)
      (run-read_back (start_element s name attrs) events h.1)
run-read_back s (empty name attrs ∷ events) h =
    rw (run, read_back, collect_attrs-read_attrs attrs h.0)
      (run-read_back (end_element (start_element s name attrs) name) events h.1)
run-read_back s (end name ∷ events) h = run-read_back (end_element s name) events h.1

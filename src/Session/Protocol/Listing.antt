-- ===== src/Session/Protocol/Listing.antt =====
-- APP.LIST end to end: the reply of src/session/main.cpp through `list` of src/session/client.cpp.
use finn_os.Base.{
  ℕ, suc, ◌+◌, ◌≤◌, ◌≡◌, refl, sym, ap, subst, ◌∙◌, true, false, none, some, List, [], ◌∷◌, ◌++◌,
  map, append_assoc, arith, length, All, All-append,
}
use finn_os.Text.Raw.{Bytes, codes, Without, after_prefix, after_prefix-append}
use finn_os.Text.Decimal.{
  Scan, is_digit, to_string, length-to_string, scan_int, scan_int-to_string, to_string-Without,
}
use finn_os.Wire.{ReadOutcome, line_limit, read_line, write_all}
use finn_os.Wire.Reading.{Delivers, read_line-Delivers, read_line_overlong}
use finn_os.Registry.{App}
use finn_os.Registry.Invariant.{IsEntry, IsCatalogue}
use finn_os.Session.Broker.{app_lines, list_reply}
use finn_os.Session.Client.{
  SessionApp, read_header, read_count, Peer, ok, err, count_limit, read_apps, talk_list,
}
use finn_os.Session.Protocol.Row.{row, view, length-row, app_line-row, row-Without, read_app-row}

-- The app's line fits into the client's line buffer.
abbrev pub Fits : App → Type 0
Fits app = length app.id + length app.name + length app.icon + 4 ≤ line_limit

app_lines_cons :
    (app : App) (apps : List App) → app_lines (app ∷ apps) ≡ row app ++ (b'\n' ∷ app_lines apps)
unfolding app_lines
app_lines_cons app apps = app_line-row app (app_lines apps)

read_apps_step :
    (count : ℕ) (reads mid : List ReadOutcome) (app : App) (apps : List SessionApp)
    → IsEntry app
    → read_line reads ≡ (some (row app), mid)
    → read_apps count mid ≡ ok apps
    → read_apps (suc count) reads ≡ ok (view app ∷ apps)
unfolding read_apps
read_apps_step count reads mid app apps e r h =
    rw (ap (λ p. p.0) r, read_apps) (rw (ap (λ p. p.1) r) (rw h (ap ok (read_app-row app e apps))))

read_apps-app_lines :
    (apps : List App) (reads rest : List ReadOutcome)
    → All IsEntry apps
    → All Fits apps
    → Delivers (app_lines apps) reads rest
    → read_apps (length apps) reads ≡ ok (map view apps)
read_apps-app_lines [] reads rest e f d = unfold read_apps in refl
read_apps-app_lines (app ∷ apps) reads rest e f d =
    let (mid, r, d') =
      read_line-Delivers (row app) (app_lines apps) reads rest
        (subst (λ t. Delivers t reads rest) (app_lines_cons app apps) d) (row-Without app e.0)
        (omega (arith, length-row app)) in
    read_apps_step (length apps) reads mid app (map view apps) e.0 r
      (read_apps-app_lines apps mid rest e.1 f.1 d')

header-Without : (count : ℕ) → Without b'\n' (codes "OK count=" ++ to_string count)
header-Without count =
    All-append _ (codes "OK count=") _ (ground arith)
      (to_string-Without count b'\n' (unfold is_digit in refl))

list_reply_lem :
    (apps : List App)
    → list_reply apps ≡ (codes "OK count=" ++ to_string (length apps)) ++ (b'\n' ∷ app_lines apps)
list_reply_lem apps =
    sym (append_assoc (codes "OK count=") (to_string (length apps)) (b'\n' ∷ app_lines apps))

read_header_ok :
    (line digits : Bytes) (count : ℕ) (reads : List ReadOutcome)
    → after_prefix (codes "OK count=") line ≡ some digits
    → scan_int digits ≡ Scan.scanned false count
    → count ≤ count_limit
    → read_header (some line) reads ≡ read_apps count reads
read_header_ok line digits count reads p e h =
    rw (p, read_header) (rw (e, read_count) (ground arith))

talk_list_lem :
    (peer : Peer) (line : Bytes) (mid : List ReadOutcome)
    → (write_all (codes "APP.LIST\n") peer.writes).done ≡ true
    → read_line peer.reads ≡ (some line, mid)
    → talk_list peer ≡ read_header (some line) mid
unfolding talk_list
talk_list_lem peer line mid w r = rw w (rw (ap (λ p. p.0) r) (rw (ap (λ p. p.1) r)))

-- The client has the header of a reply with few enough apps, and reads on.
talk_list-list_reply :
    (apps : List App) (peer : Peer) (rest : List ReadOutcome)
    → (write_all (codes "APP.LIST\n") peer.writes).done ≡ true
    → length apps ≤ count_limit
    → Delivers (list_reply apps) peer.reads rest
    → (mid : List ReadOutcome) × (talk_list peer ≡ read_apps (length apps) mid)
      × Delivers (app_lines apps) mid rest
talk_list-list_reply apps peer rest w h d =
    let header = codes "OK count=" ++ to_string (length apps) in
    let short : length header ≤ line_limit = omega (arith, length-to_string (length apps)) in
    let (mid, r, d') =
      read_line-Delivers header (app_lines apps) peer.reads rest
        (subst (λ t. Delivers t peer.reads rest) (list_reply_lem apps) d)
        (header-Without (length apps)) short in
    (
      mid,
      talk_list_lem peer header mid w r
          ∙ read_header_ok header (to_string (length apps)) (length apps) mid
              (after_prefix-append (codes "OK count=") (to_string (length apps)))
              (scan_int-to_string (length apps)) h,
      d',
    )

-- The client reads the broker's listing of a catalogue back, whatever interrupts the reads: the
-- same apps in the same order, with the id, the installed flag, and the name and icon sanitised.
-- It needs a catalogue of at most 4096 apps whose lines each fit into 4096 bytes, a request that
-- is sent whole, and a stream that delivers the reply.
pub talk_list-app_lines :
    (apps : List App) (peer : Peer) (rest : List ReadOutcome)
    → IsCatalogue apps
    → length apps ≤ count_limit
    → All Fits apps
    → (write_all (codes "APP.LIST\n") peer.writes).done ≡ true
    → Delivers (list_reply apps) peer.reads rest
    → talk_list peer ≡ ok (map view apps)
talk_list-app_lines apps peer rest k h f w d =
    let (mid, e, d') = talk_list-list_reply apps peer rest w h d in
    e ∙ read_apps-app_lines apps mid rest k.entries f d'

read_apps-none :
    (count : ℕ) (reads : List ReadOutcome)
    → (read_line reads).0 ≡ none
    → read_apps (suc count) reads ≡ err (codes "APP.LIST ended early")
unfolding read_apps
read_apps-none count reads e = rw (e, read_apps)

read_apps_err :
    (count : ℕ) (reads mid : List ReadOutcome) (line text : Bytes)
    → read_line reads ≡ (some line, mid)
    → read_apps count mid ≡ err text
    → read_apps (suc count) reads ≡ err text
unfolding read_apps
read_apps_err count reads mid line text r h =
    rw (ap (λ p. p.0) r, read_apps) (rw (ap (λ p. p.1) r) (rw h))

read_apps_overlong :
    (before behind : List App) (app : App) (reads rest : List ReadOutcome)
    → All IsEntry (before ++ (app ∷ behind))
    → All Fits before
    → ¬ (Fits app)
    → Delivers (app_lines (before ++ (app ∷ behind))) reads rest
    → read_apps (length (before ++ (app ∷ behind))) reads ≡ err (codes "APP.LIST ended early")
read_apps_overlong [] behind app reads rest e f n d = read_apps-none (length behind) reads (
    read_line_overlong (row app) (b'\n' ∷ app_lines behind) reads rest
      (subst (λ t. Delivers t reads rest) (app_lines_cons app behind) d) (row-Without app e.0)
      (ground (arith, length-row app, n)))
read_apps_overlong (x ∷ before) behind app reads rest e f n d =
    let (mid, r, d') =
      read_line-Delivers (row x) (app_lines (before ++ (app ∷ behind))) reads rest
        (subst (λ t. Delivers t reads rest) (app_lines_cons x (before ++ (app ∷ behind))) d)
        (row-Without x e.0) (omega (arith, length-row x)) in
    read_apps_err (length (before ++ (app ∷ behind))) reads mid (row x) _ r
      (read_apps_overlong before behind app mid rest e.1 f.1 n d')

-- One app whose line does not fit makes the whole listing fail, whatever apps stand before it (if
-- their lines fit) and behind it, when the request is sent whole and the stream delivers the
-- reply.
pub talk_list_overlong :
    (before behind : List App) (app : App) (peer : Peer) (rest : List ReadOutcome)
    → IsCatalogue (before ++ (app ∷ behind))
    → length (before ++ (app ∷ behind)) ≤ count_limit
    → All Fits before
    → ¬ (Fits app)
    → (write_all (codes "APP.LIST\n") peer.writes).done ≡ true
    → Delivers (list_reply (before ++ (app ∷ behind))) peer.reads rest
    → talk_list peer ≡ err (codes "APP.LIST ended early")
talk_list_overlong before behind app peer rest k h f n w d =
    let (mid, e, d') = talk_list-list_reply (before ++ (app ∷ behind)) peer rest w h d in
    e ∙ read_apps_overlong before behind app mid rest k.entries f n d'

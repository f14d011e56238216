-- ===== src/Events/Gateway.antt =====
-- Which requests have a deadline.
use dst_nucleus.Prelude.{
  Bool, true, false, Bytes, codes, equal, equal_iff, not, ◌≡◌, ap, ◌∙◌, refl, if-split,
}
use dst_nucleus.Events.{
  Handler, ui, status, events, epoch_master, epoch_caves, command, start, stop, restart, file_read,
  file_write, update_state, log_master, log_caves, checkupdate, route, has_deadline,
}

-- The handlers that write for as long as their client listens.
abbrev pub is_stream : Handler → Bool
is_stream events = true
is_stream epoch_master = true
is_stream epoch_caves = true
is_stream log_master = true
is_stream log_caves = true
is_stream _ = false

-- A request gets deadlines just if it is not routed to one of the five handlers that stream.
pub has_deadline_lem : (path : Bytes) → has_deadline path ≡ not (is_stream (route path))
unfolding has_deadline route
has_deadline_lem path =
    let P : Handler → Type 0 = λ h. has_deadline path ≡ not (is_stream h) in
    let at : (p : Bytes) (h : Handler)
        → has_deadline p ≡ not (is_stream h)
        → equal path p ≡ true
        → P h =
      λ p h e q. ap has_deadline ((equal_iff path p).0 q) ∙ e in
    if-split P (equal path (codes "/")) _ _ (at (codes "/") ui refl) (λ _.
      if-split P (equal path (codes "/api/status")) _ _ (at (codes "/api/status") status refl) (λ _.
        if-split P (equal path (codes "/api/events")) _ _ (at (codes "/api/events") events refl)
          (λ e1.
            if-split P (equal path (codes "/api/epoch/master")) _ _
              (at (codes "/api/epoch/master") epoch_master refl)
              (λ e2.
                if-split P (equal path (codes "/api/epoch/caves")) _ _
                  (at (codes "/api/epoch/caves") epoch_caves refl)
                  (λ e3.
                    if-split P (equal path (codes "/api/command")) _ _
                      (at (codes "/api/command") command refl)
                      (λ _.
                        if-split P (equal path (codes "/api/start")) _ _
                          (at (codes "/api/start") start refl)
                          (λ _.
                            if-split P (equal path (codes "/api/stop")) _ _
                              (at (codes "/api/stop") stop refl)
                              (λ _.
                                if-split P (equal path (codes "/api/restart")) _ _
                                  (at (codes "/api/restart") restart refl)
                                  (λ _.
                                    if-split P (equal path (codes "/api/file/read")) _ _
                                      (at (codes "/api/file/read") file_read refl)
                                      (λ _.
                                        if-split P (equal path (codes "/api/file/write")) _ _
                                          (at (codes "/api/file/write") file_write refl)
                                          (λ _.
                                            if-split P (equal path (codes "/api/update/state")) _ _
                                              (at (codes "/api/update/state") update_state refl)
                                              (λ _.
                                                if-split P (equal path (codes "/api/log/master")) _
                                                  _ (at (codes "/api/log/master") log_master refl)
                                                  (λ e4.
                                                    if-split P (equal path (codes "/api/log/caves"))
                                                      _ _
                                                      (at (codes "/api/log/caves") log_caves refl)
                                                      (λ e5.
                                                        if-split P
                                                          (equal path (codes "/api/checkupdate")) _
                                                          _
                                                          (at (codes "/api/checkupdate") checkupdate
                                                            refl)
                                                          (λ _.
                                                            rw (e1, e2, e3, e4, e5)
                                                            refl)))))))))))))))

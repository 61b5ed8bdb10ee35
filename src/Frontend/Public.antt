-- ===== src/Frontend/Public.antt =====
-- The frames of DeltaCodeApp.tsx that its public pages stand in.
pub mod Preview
pub mod Landing
pub mod Pages
pub mod Links
pub mod Start
use code_delta.Prelude.{true, [], ◌∷◌}
use code_delta.Text.{Text, txt}
use code_delta.Frontend.Event.{move_pointer, leave_pointer}
use code_delta.Frontend.Markup.{Markup, attr, event, nothing, text, ◌&◌, tag}

unfoldable pub experience_shell : Markup → Markup
experience_shell children =
    tag "div"
      (attr "class" (txt "experience-shell")
        ∷ event "onPointerMove" (move_pointer)
        ∷ event "onPointerLeave" (leave_pointer)
        ∷ [])
      (tag "div" (attr "class" (txt "experience-backdrop") ∷ attr "aria-hidden" (txt "true") ∷ []) (
          tag "span" (attr "class" (txt "experience-spotlight") ∷ []) nothing
          & tag "span" (attr "class" (txt "experience-orb experience-orb-one") ∷ []) nothing
          & tag "span" (attr "class" (txt "experience-orb experience-orb-two") ∷ []) nothing
          & tag "span" (attr "class" (txt "experience-orb experience-orb-three") ∷ []) nothing
          & tag "span" (attr "class" (txt "experience-grid") ∷ []) nothing
          & tag "span" (attr "class" (txt "data-lane data-lane-one") ∷ []) (tag "i" [] nothing)
          & tag "span" (attr "class" (txt "data-lane data-lane-two") ∷ []) (tag "i" [] nothing)
          & tag "span" (attr "class" (txt "data-lane data-lane-three") ∷ []) (tag "i" [] nothing))
        & tag "div" (attr "class" (txt "experience-content") ∷ []) (children))

unfoldable pub landing_shell : Markup → Markup
landing_shell children =
    tag "div"
      (attr "class" (txt "landing-shell")
        ∷ event "onPointerMove" (move_pointer)
        ∷ event "onPointerLeave" (leave_pointer)
        ∷ [])
      (tag "div" (attr "class" (txt "cursor-aura") ∷ attr "aria-hidden" (txt "true") ∷ []) nothing
        & tag "div" (attr "class" (txt "aurora aurora-a") ∷ attr "aria-hidden" (txt "true") ∷ [])
            nothing
        & tag "div" (attr "class" (txt "aurora aurora-b") ∷ attr "aria-hidden" (txt "true") ∷ [])
            nothing
        & tag "div" (attr "class" (txt "mesh-grid") ∷ attr "aria-hidden" (txt "true") ∷ []) nothing
        & tag "div" (attr "class" (txt "api-flow-field") ∷ attr "aria-hidden" (txt "true") ∷ []) (
            tag "svg"
              (attr "viewBox" (txt "0 0 1440 780")
                ∷ attr "preserveAspectRatio" (txt "xMidYMid slice")
                ∷ [])
              (tag "defs" [] (
                  tag "linearGradient"
                    (attr "id" (txt "delta-flow-primary")
                      ∷ attr "x1" (txt "0")
                      ∷ attr "y1" (txt "0")
                      ∷ attr "x2" (txt "1")
                      ∷ attr "y2" (txt "0")
                      ∷ [])
                    (tag "stop"
                        (attr "offset" (txt "0")
                          ∷ attr "stopColor" (txt "currentColor")
                          ∷ attr "stopOpacity" (txt "0")
                          ∷ [])
                        nothing
                      & tag "stop"
                          (attr "offset" (txt ".45")
                            ∷ attr "stopColor" (txt "currentColor")
                            ∷ attr "stopOpacity" (txt ".72")
                            ∷ [])
                          nothing
                      & tag "stop"
                          (attr "offset" (txt "1")
                            ∷ attr "stopColor" (txt "currentColor")
                            ∷ attr "stopOpacity" (txt ".08")
                            ∷ [])
                          nothing)
                  & tag "linearGradient"
                      (attr "id" (txt "delta-flow-change")
                        ∷ attr "x1" (txt "0")
                        ∷ attr "y1" (txt "0")
                        ∷ attr "x2" (txt "1")
                        ∷ attr "y2" (txt "0")
                        ∷ [])
                      (tag "stop"
                          (attr "offset" (txt "0")
                            ∷ attr "stopColor" (txt "#22a9e8")
                            ∷ attr "stopOpacity" (txt ".16")
                            ∷ [])
                          nothing
                        & tag "stop"
                            (attr "offset" (txt ".6")
                              ∷ attr "stopColor" (txt "#1769ff")
                              ∷ attr "stopOpacity" (txt ".68")
                              ∷ [])
                            nothing
                        & tag "stop"
                            (attr "offset" (txt "1")
                              ∷ attr "stopColor" (txt "#e34962")
                              ∷ attr "stopOpacity" (txt ".22")
                              ∷ [])
                            nothing))
                & tag "path"
                    (attr "class" (txt "flow-path flow-path-muted")
                      ∷ attr "d" (
                          txt
                            "M-80 180 C180 180 242 124 444 124 S720 210 916 174 1190 112 1520 112")
                      ∷ [])
                    nothing
                & tag "path"
                    (attr "class" (txt "flow-path flow-path-muted")
                      ∷ attr "d" (
                          txt
                            "M-40 620 C210 620 294 532 482 532 S780 652 1010 594 1238 500 1510 526")
                      ∷ [])
                    nothing
                & tag "path"
                    (attr "class" (txt "flow-path flow-path-base")
                      ∷ attr "d" (
                          txt
                            "M310 388 C486 388 534 310 686 310 S876 244 1070 244 1274 296 1490 270")
                      ∷ [])
                    nothing
                & tag "path"
                    (attr "class" (txt "flow-path flow-path-head")
                      ∷ attr "d" (
                          txt
                            "M310 388 C486 388 534 462 686 462 S882 536 1072 536 1274 482 1490 516")
                      ∷ [])
                    nothing
                & tag "path"
                    (attr "class" (txt "flow-path flow-path-spine")
                      ∷ attr "d" (txt "M-50 388 C86 388 180 388 310 388")
                      ∷ [])
                    nothing
                & tag "circle"
                    (attr "class" (txt "flow-hub")
                      ∷ attr "cx" (txt "310")
                      ∷ attr "cy" (txt "388")
                      ∷ attr "r" (txt "7")
                      ∷ [])
                    nothing
                & tag "circle"
                    (attr "class" (txt "flow-node node-base")
                      ∷ attr "cx" (txt "686")
                      ∷ attr "cy" (txt "310")
                      ∷ attr "r" (txt "5")
                      ∷ [])
                    nothing
                & tag "circle"
                    (attr "class" (txt "flow-node node-head")
                      ∷ attr "cx" (txt "686")
                      ∷ attr "cy" (txt "462")
                      ∷ attr "r" (txt "5")
                      ∷ [])
                    nothing
                & tag "circle"
                    (attr "class" (txt "flow-node node-change")
                      ∷ attr "cx" (txt "1072")
                      ∷ attr "cy" (txt "536")
                      ∷ attr "r" (txt "6")
                      ∷ [])
                    nothing)
            & tag "span" (attr "class" (txt "flow-packet flow-packet-one") ∷ []) nothing
            & tag "span" (attr "class" (txt "flow-packet flow-packet-two") ∷ []) nothing
            & tag "span" (attr "class" (txt "flow-packet flow-packet-three") ∷ []) nothing
            & tag "span" (attr "class" (txt "flow-chip flow-chip-request") ∷ [])
                (tag "b" [] (text (txt "GET")) & text (txt " /v1/items"))
            & tag "span" (attr "class" (txt "flow-chip flow-chip-base") ∷ [])
                (tag "i" [] nothing & text (txt " base · 200"))
            & tag "span" (attr "class" (txt "flow-chip flow-chip-head") ∷ [])
                (tag "i" [] nothing & text (txt " head · 422"))
            & tag "span" (attr "class" (txt "flow-difference") ∷ [])
                (text (txt "behavior changed")))
        & tag "div" (attr "class" (txt "constellation") ∷ attr "aria-hidden" (txt "true") ∷ []) (
            tag "i" [] nothing
            & tag "i" [] nothing
            & tag "i" [] nothing
            & tag "i" [] nothing
            & tag "i" [] nothing
            & tag "i" [] nothing
            & tag "span" [] nothing
            & tag "span" [] nothing
            & tag "span" [] nothing)
        & children)

unfoldable pub public_page_hero : Text → Text → Text → Markup → Markup
public_page_hero kicker title description children =
    tag "section" (attr "class" (txt "subpage-hero") ∷ []) (
      tag "span" (attr "class" (txt "section-kicker") ∷ []) (text (kicker))
      & tag "h1" [] (text (title))
      & tag "p" [] (text (description))
      & children)

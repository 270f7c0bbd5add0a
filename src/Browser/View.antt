-- ===== src/Browser/View.antt =====
-- What a user sees after the calls of a page, the latest first, as jQuery documents `show`, `hide`,
-- `text`, `append`, `prepend` and `empty`.
use Prim.Native.String.{String}
use text.Mathlib.Text.{◌==◌}
use polarcloud.Prelude.{
  Bool, true, false, List, [], ◌∷◌, ◌++◌, Option, none, some, Text, if◌then◌else◌,
}
use polarcloud.Browser.{Call, show, hide, empty, remove_children, append, prepend, set_text}

-- Whether an element is shown; `b` says so of the page before its first call.
unfoldable pub shown : String → List Call → Bool → Bool
shown e [] b = b
shown e (show f ∷ h) b = if f == e then true else shown e h b
shown e (hide f ∷ h) b = if f == e then false else shown e h b
shown e (_ ∷ h) b = shown e h b

-- The children that the calls have put into an element.
unfoldable pub children : String → List Call → List Text
children e [] = []
children e (append f t ∷ h) = if f == e then children e h ++ t ∷ [] else children e h
children e (prepend f t ∷ h) = if f == e then t ∷ children e h else children e h
children e (empty f ∷ h) = if f == e then [] else children e h
children e (remove_children f ∷ h) = if f == e then [] else children e h
children e (_ ∷ h) = children e h

-- The text that was set last.
unfoldable pub text_in : String → List Call → Option Text
text_in e [] = none
text_in e (set_text f t ∷ h) = if f == e then some t else text_in e h
text_in e (_ ∷ h) = text_in e h

-- ===== src/Printer.antt =====
-- pkg/printer: the ESC/POS commands of a receipt printer, its code pages, the layout of text and the
-- throttled transfer of a receipt to the device.
pub mod CodePage
pub mod Tables
pub mod Buffer
pub mod Layout
pub mod Transfer
pub mod Safe
pub mod Fit
pub mod Delivery
pub mod Lossless
mod Scenarios

-- ===== src/Drivers.antt =====
-- The device drivers: src/watchdog.c, src/gpio.c, src/timer.c, src/mdio.c and src/qcom_uart.c.
pub mod Cpu
pub mod Watchdog
pub mod Gpio
pub mod Timer
pub mod Mdio
pub mod Uart
